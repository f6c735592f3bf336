-- ===== src/Aof/Tests.antt =====
-- The theorems on the append-only file at small files.
use flash_kv.Common.{
  ℕ, ◌+◌, ◌≡◌, ◌≢◌, refl, true, false, Option, none, some, List, [], ◌∷◌, arith, Bytes, codes,
}
use flash_kv.Aof.Flush.{AppendOnlyFile, Answer, wrote, interrupted, failed, append, flush}
use flash_kv.Aof.Load.{load, exhausted}
use flash_kv.Aof.Total.{load-ne-exhausted}
use flash_kv.Aof.Durable.{pending, flush-pending}
use flash_kv.Resp.Encode.{resp_array}
use flash_kv.Aof.Replay.{AreLoggable, append_all, replay_all, load-flush}

abbrev waiting : AppendOnlyFile
waiting = record {
  buffer = codes "*1";
  is_open = true;
  needs_sync = false;
  write_failed = false;
  contents = codes "old";
}

abbrev answers : List Answer
answers = interrupted ∷ wrote 1 ∷ failed ∷ []

flush-pending_example : pending (flush answers waiting).1 ≡ pending waiting
flush-pending_example = flush-pending answers waiting

abbrev fresh : AppendOnlyFile
fresh = record waiting { buffer = []; contents = [] }

abbrev commands : List (List Bytes)
commands = (codes "SET" ∷ codes "k" ∷ codes "v" ∷ []) ∷ (codes "FLUSHALL" ∷ []) ∷ []

loggable : AreLoggable commands
loggable = (
  (omega arith, (omega arith, (omega arith, (omega arith, tt)))),
  ((omega arith, (omega arith, tt)), tt),
)

abbrev in_two_steps : List Answer
in_two_steps = wrote 5 ∷ interrupted ∷ wrote 100 ∷ []

done : (flush in_two_steps (append_all commands fresh)).0 ≡ some true
unfolding flush append resp_array
done = refl

-- A replay that counts the commands.
abbrev counting : List Bytes → ℕ → Option Bytes × ℕ
counting command n = (none, n + 1)

abbrev truncates : ℕ → Option Bytes
truncates position = none

load-flush_example :
    load counting truncates (some (flush in_two_steps (append_all commands fresh)).1.contents) 0
    ≡ replay_all counting truncates 0 commands 0
load-flush_example = load-flush counting truncates 0 commands in_two_steps fresh refl loggable done

load-ne-exhausted_example : (load counting truncates (some (codes "*1")) 0).0 ≢ exhausted
load-ne-exhausted_example = load-ne-exhausted counting truncates (some (codes "*1")) 0
