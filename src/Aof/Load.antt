-- ===== src/Aof/Load.antt =====
-- src/aof.cpp, `load`: every command of the file is replayed. What replays one is a parameter.
use flash_kv.Common.{
  ℕ, zero, suc, ◌+◌, Option, none, some, List, [], ◌∷◌, ◌++◌, Bytes, codes, length, drop,
}
use flash_kv.Common.Decimal.{to_string}
use flash_kv.Resp.Parse.{RespParseResult, complete, incomplete, error_status, parse_resp_command}

-- How a load ends: with the file as it is, cut at a position, or with an error message; or the fuel
-- runs out.
pub data Loaded : Type 0 where
  whole_file : Loaded
  cut_at : ℕ → Loaded
  load_error : Bytes → Loaded
  exhausted : Loaded

abbrev pub data_error : ℕ → Bytes → Bytes
data_error position message =
    codes "invalid AOF data at byte " ++ to_string position ++ codes ": " ++ message

abbrev pub replay_error : ℕ → Bytes → Bytes → Bytes
replay_error number name message =
    codes "AOF command #" ++ to_string number ++ codes " (" ++ name ++ codes ") failed: " ++ message

-- `arguments[0]`.
abbrev pub head_of : List Bytes → Bytes
head_of [] = []
head_of (name ∷ arguments) = name

-- `replay(arguments, replayError)` answers with a message for false; `truncate` likewise.
module _ {S : Type 0} (replay : List Bytes → S → Option Bytes × S)
    (truncate : ℕ → Option Bytes) where
  abbrev pub cut : ℕ → Option Bytes → Loaded
  cut position none = cut_at position
  cut position (some message) = load_error (codes "failed to truncate AOF: " ++ message)

  -- An empty inline line is not replayed.
  abbrev pub replayed : List Bytes → S → Option Bytes × S
  replayed [] s = (none, s)
  replayed (name ∷ arguments) s = replay (name ∷ arguments) s

  -- Behind the replay of a command.
  abbrev pub after_replay : ℕ → List Bytes → Option Bytes × S → (S → Loaded × S) → Loaded × S
  after_replay number arguments (some message, s) rest =
      (load_error (replay_error number (head_of arguments) message), s)
  after_replay number arguments (none, s) rest = rest s

  -- Behind the parser; `rest` is the next round.
  abbrev pub after_parse : ℕ → ℕ → RespParseResult → (S → Loaded × S) → S → Loaded × S
  after_parse position number result rest s = elim result.status [
    | incomplete ↦ (cut position (truncate position), s)
    | error_status ↦ (load_error (data_error position result.error), s)
    | complete ↦ after_replay (number + 1) result.arguments (replayed result.arguments s) rest
  ]

  -- The loop: fuel, `position`, the number of commands so far, the text from `position` on. A
  -- command takes one byte at least, so the text has no more commands than bytes.
  unfoldable pub load_loop : ℕ → ℕ → ℕ → Bytes → S → Loaded × S
  load_loop fuel position number [] s = (whole_file, s)
  load_loop zero position number (c ∷ text) s = (exhausted, s)
  load_loop (suc fuel) position number (c ∷ text) s =
      let result = parse_resp_command (c ∷ text) in
      after_parse position number result
        (load_loop fuel (position + result.consumed_bytes) (number + 1)
          (drop result.consumed_bytes (c ∷ text)))
        s

  -- No file is an empty database.
  unfoldable pub load : Option Bytes → S → Loaded × S
  unfolding load_loop
  load none s = (whole_file, s)
  load (some contents) s = load_loop (length contents) 0 0 contents s
