-- ===== src/Aof/Replay.antt =====
-- src/aof.cpp: what `load` finds in a file to which commands were appended.
use flash_kv.Common.{
  ℕ, zero, suc, ◌+◌, ◌≤◌, ◌≡◌, refl, sym, ap, ◌∙◌, Bool, true, false, Option, none, some, List, [],
  ◌∷◌, ◌++◌, arith, Bytes, length, drop, append_assoc, append-nil, length-append,
}
use flash_kv.Resp.Encode.{resp_array}
use flash_kv.Resp.Parse.{max_arguments, complete_result, parse_resp_command}
use flash_kv.Resp.RoundTrip.{AreWithinLimits, drop-append, parse_resp_command-resp_array}
use flash_kv.Aof.Load.{Loaded, whole_file, after_replay, after_parse, load_loop, load}
use flash_kv.Aof.Flush.{
  AppendOnlyFile, Answer, Written, all_written, broken, blocked, append, flush, flush_bytes,
  flushed, write_loop,
}
use flash_kv.Aof.Durable.{pending, flush-pending}

-- A command of the log: it has a name, and the parser's limits hold.
abbrev pub IsLoggable : List Bytes → Type 0
IsLoggable [] = ⊥
IsLoggable (name ∷ arguments) =
    (length (name ∷ arguments) ≤ max_arguments) × AreWithinLimits (name ∷ arguments)

abbrev pub AreLoggable : List (List Bytes) → Type 0
AreLoggable [] = Unit {0}
AreLoggable (c ∷ commands) = IsLoggable c × AreLoggable commands

abbrev pub encoded : List (List Bytes) → Bytes
encoded [] = []
encoded (c ∷ commands) = resp_array c ++ encoded commands

abbrev pub append_all : List (List Bytes) → AppendOnlyFile → AppendOnlyFile
append_all [] aof = aof
append_all (c ∷ commands) aof = append_all commands (append c aof)

module _ {S : Type 0} (replay : List Bytes → S → Option Bytes × S)
    (truncate : ℕ → Option Bytes) where
  -- The commands one after the other, up to the first that is refused.
  abbrev pub replay_all : ℕ → List (List Bytes) → S → Loaded × S
  replay_all number [] s = (whole_file, s)
  replay_all number (c ∷ commands) s =
      after_replay replay truncate (number + 1) c (replay c s) (replay_all (number + 1) commands)

  -- One round of the loop, at a whole command.
  load_loop_complete :
      (fuel position number b : ℕ) (text name : Bytes) (arguments : List Bytes) (consumed : ℕ)
      (s : S)
      → parse_resp_command (b ∷ text) ≡ complete_result (name ∷ arguments) consumed
      → load_loop replay truncate (suc fuel) position number (b ∷ text) s
        ≡ after_replay replay truncate
            (number + 1)
            (name ∷ arguments)
            (replay (name ∷ arguments) s)
            (load_loop replay truncate fuel
              (position + consumed)
              (number + 1)
              (drop consumed (b ∷ text)))
  unfolding load_loop
  load_loop_complete fuel position number b text name arguments consumed s e =
      ap
        (λ r.
          after_parse replay truncate position number r
            (load_loop replay truncate fuel (position + r.consumed_bytes) (number + 1)
              (drop r.consumed_bytes (b ∷ text)))
            s)
        e

  after_replay-ap :
      (number : ℕ) (c : List Bytes) (r : Option Bytes × S) {f g : S → Loaded × S}
      → ((s : S) → f s ≡ g s)
      → after_replay replay truncate number c r f ≡ after_replay replay truncate number c r g
  after_replay-ap number c (some m, s) h = refl
  after_replay-ap number c (none, s) h = h s

  load_loop-encoded :
      (fuel position number : ℕ) (commands : List (List Bytes)) (s : S)
      → AreLoggable commands
      → length commands ≤ fuel
      → load_loop replay truncate fuel position number (encoded commands) s
        ≡ replay_all number commands s
  unfolding resp_array
  load_loop-encoded fuel position number [] s h enough = unfold load_loop in refl
  load_loop-encoded zero position number (c ∷ commands) s h enough = absurd (omega arith)
  load_loop-encoded (suc fuel) position number ([] ∷ commands) s h enough = absurd h.0
  load_loop-encoded (suc fuel) position number ((name ∷ arguments) ∷ commands) s h enough =
      let c = name ∷ arguments in
      let rest = encoded commands in
      let consumed = length (resp_array c) in
      load_loop_complete fuel position number b'*' _ name arguments consumed s
        (parse_resp_command-resp_array c rest h.0.0 h.0.1)
      ∙ after_replay-ap (number + 1) c (replay c s) (λ s'. rw (drop-append (resp_array c) rest) (
          load_loop-encoded fuel (position + consumed) (number + 1) commands s' h.1
            (omega (arith, enough))))

  length-encoded : (commands : List (List Bytes)) → length commands ≤ length (encoded commands)
  unfolding resp_array
  length-encoded [] = omega arith
  length-encoded (c ∷ commands) =
      omega (arith, length-encoded commands, length-append (resp_array c) (encoded commands))

  pub load-encoded :
      (commands : List (List Bytes)) (s : S)
      → AreLoggable commands
      → load replay truncate (some (encoded commands)) s ≡ replay_all 0 commands s
  unfolding load
  load-encoded commands s h =
      load_loop-encoded (length (encoded commands)) 0 0 commands s h (length-encoded commands)

append_all-pending :
    (commands : List (List Bytes)) (aof : AppendOnlyFile)
    → pending (append_all commands aof) ≡ pending aof ++ encoded commands
unfolding append
append_all-pending [] aof = sym (append-nil (pending aof))
append_all-pending (c ∷ commands) aof =
    append_all-pending commands (append c aof)
    ∙ ap (λ t. t ++ encoded commands) (sym (append_assoc aof.contents aof.buffer (resp_array c)))
    ∙ append_assoc (pending aof) (resp_array c) (encoded commands)

flushed-emptied :
    (aof : AppendOnlyFile) (w : Written)
    → (flushed aof w).0 ≡ some true
    → (flushed aof w).1.buffer ≡ []
flushed-emptied aof (all_written contents) h = refl
flushed-emptied aof (broken left contents) h = ground (arith, h)
flushed-emptied aof (blocked left contents) h = ground (arith, h)

flush_bytes-emptied :
    (answers : List Answer) (is_open : Bool) (left : Bytes) (aof : AppendOnlyFile)
    → aof.buffer ≡ left
    → (flush_bytes answers is_open left aof).0 ≡ some true
    → (flush_bytes answers is_open left aof).1.buffer ≡ []
unfolding flush_bytes
flush_bytes-emptied answers is_open [] aof e h = e
flush_bytes-emptied answers false (c ∷ left) aof e h = ground (arith, h)
flush_bytes-emptied answers true (c ∷ left) aof e h =
    flushed-emptied aof (write_loop answers (c ∷ left) aof.contents) h

-- A flush that succeeds has emptied the buffer.
flush-emptied :
    (answers : List Answer) (aof : AppendOnlyFile)
    → (flush answers aof).0 ≡ some true
    → (flush answers aof).1.buffer ≡ []
unfolding flush
flush-emptied answers aof h = flush_bytes-emptied answers aof.is_open aof.buffer aof refl h

-- If a file and its buffer are empty, commands are appended, each with a name and within the
-- parser's limits (1048576 arguments, 512 MB each), and the flush returns true, whatever the
-- answers of `write` in between, then `load` of the file replays these commands in order, up to
-- the first that the replay refuses, with any replay function and any `truncate`; if none is
-- refused it accepts the whole file.
pub load-flush :
    {S : Type 0} (replay : List Bytes → S → Option Bytes × S) (truncate : ℕ → Option Bytes) (s : S)
    (commands : List (List Bytes)) (answers : List Answer) (aof : AppendOnlyFile)
    → pending aof ≡ []
    → AreLoggable commands
    → (flush answers (append_all commands aof)).0 ≡ some true
    → load replay truncate (some (flush answers (append_all commands aof)).1.contents) s
      ≡ replay_all replay truncate 0 commands s
load-flush replay truncate s commands answers aof empty loggable done =
    let after = (flush answers (append_all commands aof)).1 in
    let written : after.contents ≡ encoded commands =
      sym (append-nil after.contents)
      ∙ ap (λ t. after.contents ++ t) (sym (flush-emptied answers (append_all commands aof) done))
      ∙ flush-pending answers (append_all commands aof)
      ∙ append_all-pending commands aof
      ∙ ap (λ t. t ++ encoded commands) empty in
    ap (λ t. load replay truncate (some t) s) written
    ∙ load-encoded replay truncate commands s loggable
