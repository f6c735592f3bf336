-- ===== src/Server/Sound.antt =====
-- src/tcp_server.cpp: the database stays sound from the start of the server on.
use flash_kv.Common.{
  ℕ, zero, suc, ◌+◌, ◌≡◌, refl, Bool, true, false, Option, none, some, List, [], ◌∷◌, Bytes,
  if◌then◌else◌, inl, inr, Bool-cases, subst, length,
}
use flash_kv.Common.Exec.{Outcome, ok, throw}
use flash_kv.Database.State.{Database, empty_database}
use flash_kv.Database.Expiry.{set_max_memory}
use flash_kv.Database.Filled.{IsSound}
use flash_kv.Database.Filled.Time.{set_max_memory-IsSafe, set_eviction_policy-IsSafe}
use flash_kv.Resp.Parse.{
  RespParseResult, RespParseStatus, complete, incomplete, error_status, parse_resp_command,
}
use flash_kv.Aof.Flush.{AppendOnlyFile}
use flash_kv.Aof.Load.{Loaded, replayed, after_replay, after_parse, load_loop, load}
use flash_kv.Commands.Processor.{CommandProcessor, CommandReply, Arguments, new_processor}
use flash_kv.Commands.Execute.{execute}
use flash_kv.Commands.Answers.{execute-IsSound, empty_database-IsSound, new_processor-IsSound}
use flash_kv.Common.Int.{ℤ}
use flash_kv.Server.Options.{ServerConfig}
use flash_kv.Server.Startup.{
  opened_file, replied, replay_command, file_contents, new_server, after_load, start,
}

new_server-IsSound :
    (config : ServerConfig) (db : Database) (aof : Option AppendOnlyFile)
    → IsSound db
    → IsSound (new_server config db aof).database
unfolding new_server
new_server-IsSound config db aof sound = new_processor-IsSound _ aof (
    (set_eviction_policy-IsSafe config.policy).sound (set_max_memory config.max_memory db)
      ((set_max_memory-IsSafe config.max_memory).sound db sound))

replay_command-IsSound :
    (arguments : Arguments) (p : CommandProcessor)
    → IsSound p.database
    → IsSound (replay_command arguments p).1.database
unfolding replay_command
replay_command-IsSound arguments p sound =
    go (execute arguments p) (execute-IsSound arguments p sound).0
  where
    go :
        (r : Outcome CommandReply × CommandProcessor)
        → IsSound r.1.database
        → IsSound (replied r).1.database
    go (ok reply, q) h = h
    go (throw e, q) h = h

-- `load` keeps what each replay keeps.
module _ {S : Type 0} (replay : List Bytes → S → Option Bytes × S) (truncate : ℕ → Option Bytes)
    (P : S → Type 0)
    (keeps : (arguments : List Bytes) (s : S) → P s → P (replay arguments s).1) where
  replayed_keeps :
      (arguments : List Bytes) (s : S) → P s → P (replayed replay truncate arguments s).1
  replayed_keeps [] s h = h
  replayed_keeps (name ∷ arguments) s h = keeps (name ∷ arguments) s h

  after_replay_keeps :
      (number : ℕ) (arguments : List Bytes) (r : Option Bytes × S) (rest : S → Loaded × S)
      → P r.1
      → ((s : S) → P s → P (rest s).1)
      → P (after_replay replay truncate number arguments r rest).1
  after_replay_keeps number arguments (some message, s) rest h next = h
  after_replay_keeps number arguments (none, s) rest h next = next s h

  after_parse_keeps :
      (position number : ℕ) (result : RespParseResult) (rest : S → Loaded × S) (s : S)
      → P s
      → ((s : S) → P s → P (rest s).1)
      → P (after_parse replay truncate position number result rest s).1
  after_parse_keeps position number result rest s h next = go result.status refl
    where
      go :
          (status : RespParseStatus)
          → result.status ≡ status
          → P (after_parse replay truncate position number result rest s).1
      go incomplete e = rw e h
      go error_status e = rw e h
      go complete e = rw e (
          after_replay_keeps (number + 1) result.arguments _ rest
            (replayed_keeps result.arguments s h) next)

  load_loop_keeps :
      (fuel position number : ℕ) (text : Bytes) (s : S)
      → P s
      → P (load_loop replay truncate fuel position number text s).1
  unfolding load_loop
  load_loop_keeps fuel position number [] s h = h
  load_loop_keeps zero position number (c ∷ text) s h = h
  load_loop_keeps (suc fuel) position number (c ∷ text) s h =
      after_parse_keeps position number (parse_resp_command (c ∷ text)) _ s h
        (λ s h. load_loop_keeps fuel _ (number + 1) _ s h)

  load_keeps : (contents : Option Bytes) (s : S) → P s → P (load replay truncate contents s).1
  unfolding load
  load_keeps none s h = h
  load_keeps (some contents) s h = load_loop_keeps (length contents) 0 0 contents s h

abbrev IsSoundServer : Option CommandProcessor → Type 0
IsSoundServer none = Unit {0}
IsSoundServer (some p) = IsSound p.database

after_load-IsSound :
    (config : ServerConfig) (opens : Bool) (contents : Option Bytes) (r : Loaded × CommandProcessor)
    → IsSound r.1.database
    → IsSoundServer (after_load config opens contents r)
after_load-IsSound config opens contents (loaded, p) sound =
    go (file_contents loaded contents) opens
  where
    go :
        (bytes : Option Bytes) (opens : Bool)
        → IsSoundServer (elim bytes [
          | none ↦ none
          | some bytes ↦
              if opens then some (new_server config p.database (some (opened_file bytes))) else none
        ])
    go none opens = tt
    go (some bytes) true = new_server-IsSound config p.database _ sound
    go (some bytes) false = tt

pub start-IsSound :
    (truncate : ℕ → Option Bytes) (opens : Bool) (contents : Option Bytes) (config : ServerConfig)
    (clock : ℕ → ℤ) (draw : ℕ → ℕ → ℕ) (p : CommandProcessor)
    → start truncate opens contents config (empty_database clock draw) ≡ some p
    → IsSound p.database
unfolding start
start-IsSound truncate opens contents config clock draw p e =
    subst IsSoundServer e (elim (Bool-cases config.append_only) [
      | inl logs ↦ rw logs (
          after_load-IsSound config opens contents
            (load replay_command truncate contents (new_processor (empty_database clock draw) none))
            (load_keeps replay_command truncate (λ p. IsSound p.database) replay_command-IsSound
              contents (new_processor (empty_database clock draw) none)
              (new_processor-IsSound _ none empty)))
      | inr plain ↦ rw plain (new_server-IsSound config _ none empty)
    ])
  where
    empty : IsSound (empty_database clock draw)
    empty = empty_database-IsSound clock draw
