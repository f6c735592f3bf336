-- ===== src/Aof/Total.antt =====
-- src/aof.cpp: the loop of `load` ends within the fuel.
use flash_kv.Common.{
  ℕ, zero, suc, ◌+◌, ◌≤◌, ◌≡◌, ◌≢◌, refl, Option, none, some, List, [], ◌∷◌, arith, Bytes, length,
  drop,
}
use flash_kv.Resp.Parse.{
  RespParseResult, RespParseStatus, complete, incomplete, error_status, parse_resp_command,
}
use flash_kv.Resp.Bounds.{length-drop, parse_resp_command-consumed_bytes}
use flash_kv.Aof.Load.{Loaded, exhausted, cut, after_replay, after_parse, replayed, load_loop, load}

module _ {S : Type 0} (replay : List Bytes → S → Option Bytes × S)
    (truncate : ℕ → Option Bytes) where
  cut-ne-exhausted : (position : ℕ) (o : Option Bytes) → cut replay truncate position o ≢ exhausted
  cut-ne-exhausted position none e = ground (arith, e)
  cut-ne-exhausted position (some m) e = ground (arith, e)

  after_replay-ne-exhausted :
      (number : ℕ) (c : List Bytes) (r : Option Bytes × S) (rest : S → Loaded × S)
      → ((s : S) → (rest s).0 ≢ exhausted)
      → (after_replay replay truncate number c r rest).0 ≢ exhausted
  after_replay-ne-exhausted number c (none, s) rest h e = h s e
  after_replay-ne-exhausted number c (some m, s) rest h e = ground (arith, e)

  after_parse-ne-exhausted :
      (position number : ℕ) (status : RespParseStatus) (r : RespParseResult) (rest : S → Loaded × S)
      (s : S)
      → r.status ≡ status
      → (status ≡ complete → (s : S) → (rest s).0 ≢ exhausted)
      → (after_parse replay truncate position number r rest s).0 ≢ exhausted
  after_parse-ne-exhausted position number complete r rest s q h = rw q (
      after_replay-ne-exhausted (number + 1) r.arguments (replayed replay truncate r.arguments s)
        rest (h refl))
  after_parse-ne-exhausted position number incomplete r rest s q h =
      rw q (cut-ne-exhausted position (truncate position))
  after_parse-ne-exhausted position number error_status r rest s q h = rw q (λ e. ground (arith, e))

  load_loop-ne-exhausted :
      (fuel position number : ℕ) (text : Bytes) (s : S)
      → length text ≤ fuel
      → (load_loop replay truncate fuel position number text s).0 ≢ exhausted
  unfolding load_loop
  load_loop-ne-exhausted fuel position number [] s h = λ e. ground (arith, e)
  load_loop-ne-exhausted zero position number (c ∷ text) s h = absurd (omega arith)
  load_loop-ne-exhausted (suc fuel) position number (c ∷ text) s h =
      let r = parse_resp_command (c ∷ text) in
      after_parse-ne-exhausted position number r.status r _ s refl (λ q s'.
        let (one, most) = parse_resp_command-consumed_bytes (c ∷ text) q in
        load_loop-ne-exhausted fuel (position + r.consumed_bytes) (number + 1)
          (drop r.consumed_bytes (c ∷ text)) s'
          (omega (arith, h, one, length-drop r.consumed_bytes (c ∷ text) most)))

  -- The fuel of `load`, one unit for each byte of the file, never runs out: with any replay function
  -- and any `truncate`, on every file, `load` ends with the file accepted, cut or refused.
  pub load-ne-exhausted :
      (contents : Option Bytes) (s : S) → (load replay truncate contents s).0 ≢ exhausted
  unfolding load
  load-ne-exhausted none s = λ e. ground (arith, e)
  load-ne-exhausted (some contents) s =
      load_loop-ne-exhausted (length contents) 0 0 contents s (omega arith)
