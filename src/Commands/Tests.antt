-- ===== src/Commands/Tests.antt =====
-- The theorems on commands at small inputs.
use mathlib.Core.Option
use flash_kv.Common.{
  ◌+◌, ◌≤◌, ◌≡◌, ◌≢◌, ◌⊎◌, refl, sym, ap, ◌∙◌, Bool, true, false, ◌||◌, Option, none, some, List,
  [], ◌∷◌, ◌===◌, arith, codes, length, lookup,
}
use flash_kv.Common.Int.{pos, negsuc}
use flash_kv.Common.Exec.{ok}
use flash_kv.Database.State.{empty_database}
use flash_kv.Database.Expiry.{allows_eviction, set_max_memory}
use flash_kv.Database.Filled.Time.{set_max_memory-IsSafe}
use flash_kv.Database.Filled.{IsSound}
use flash_kv.Aof.Flush.{AppendOnlyFile}
use flash_kv.Aof.Replay.{append_all}
use flash_kv.Commands.Text.{uppercase}
use flash_kv.Commands.Processor.{CommandProcessor, CommandReply, Arguments, new_processor, evict}
use flash_kv.Commands.Strings.{set, get}
use flash_kv.Commands.Table.{CommandSpec, spec, command_table}
use flash_kv.Commands.Execute.{reply, has_arity, attempt, out_of_memory, count_command, execute}
use flash_kv.Commands.Answers.{
  empty_database-IsSound, new_processor-IsSound, execute-IsSound, execute-IsExtended, execute_reads,
  execute_unhealthy, marked_write, IsRefused, allows, execute_within_limit,
}

abbrev file : AppendOnlyFile
file = record {
  buffer = [];
  is_open = true;
  needs_sync = false;
  write_failed = false;
  contents = [];
}

abbrev fresh : CommandProcessor
fresh = new_processor (empty_database (λ n. pos 1000) (λ n m. 0)) (some file)

fresh-IsSound : IsSound fresh.database
fresh-IsSound = new_processor-IsSound _ (some file) (empty_database-IsSound _ _)

abbrev set_k : Arguments
set_k = codes "set" ∷ codes "k" ∷ codes "v" ∷ codes "px" ∷ codes "5" ∷ []

abbrev filled : CommandProcessor
filled = (execute set_k fresh).1

filled-IsSound : IsSound filled.database
filled-IsSound = (execute-IsSound set_k fresh fresh-IsSound).0

execute-IsSound_example :
    IsSound (execute set_k filled).1.database × (r : CommandReply) × (execute set_k filled).0 ≡ ok r
execute-IsSound_example = execute-IsSound set_k filled filled-IsSound

execute-IsExtended_example :
    (commands : List Arguments) × ((execute set_k filled).1.aof
      ≡ Option.map (append_all commands) filled.aof)
execute-IsExtended_example = execute-IsExtended set_k filled filled-IsSound

abbrev write_of : Option CommandSpec → Bool
write_of none = false
write_of (some row) = row.write

get_row : lookup (uppercase (codes "get")) command_table ≡ some (spec get (pos 2) false false)
get_row = unfold lookup uppercase command_table ◌===◌ in refl

set_row : lookup (uppercase (codes "set")) command_table ≡ some (spec set (negsuc 2) true true)
set_row = unfold lookup uppercase command_table ◌===◌ in refl

get_reads :
    (s : CommandSpec)
    → lookup (uppercase (codes "get")) command_table ≡ some s
    → (s.write || uppercase (codes "get") === codes "CONFIG") ≡ false
get_reads s found =
    let reads : s.write ≡ false = sym (ap write_of (sym get_row ∙ found)) in
    unfold uppercase ◌===◌ in rw reads refl

execute_reads_example : (execute (codes "get" ∷ codes "k" ∷ []) filled).1.aof ≡ filled.aof
execute_reads_example = execute_reads (codes "get") (codes "k" ∷ []) filled filled-IsSound get_reads

-- After a failed write.
abbrev failing : CommandProcessor
failing = record fresh { aof = some (record file { write_failed = true }) }

failing-IsSound : IsSound failing.database
failing-IsSound = fresh-IsSound

not_config : (uppercase (codes "set") === codes "CONFIG") ≡ false
not_config = unfold uppercase ◌===◌ in refl

execute_unhealthy_example :
    ((execute set_k failing).1.aof ≡ failing.aof)
    × ((marked_write (lookup (uppercase (codes "set")) command_table) ≡ false)
        ⊎ IsRefused
            (allows (length set_k) (lookup (uppercase (codes "set")) command_table))
            failing.database
            (execute set_k failing))
execute_unhealthy_example =
    execute_unhealthy (codes "set") (codes "k" ∷ codes "v" ∷ codes "px" ∷ codes "5" ∷ []) failing
      refl failing-IsSound not_config

set_fits : has_arity (negsuc 2) (length set_k) ≡ true
set_fits = unfold has_arity in refl

-- A byte of memory for the database.
abbrev narrow : CommandProcessor
narrow = record filled { database = set_max_memory 1 filled.database; aof = some file }

narrow-IsSound : IsSound narrow.database
narrow-IsSound = (set_max_memory-IsSafe 1).sound filled.database filled-IsSound

narrow_limited : narrow.database.memory_limit ≢ 0
narrow_limited = unfold set_max_memory in (λ e. ground (arith, e))

execute_within_limit_example :
    ((execute set_k narrow ≡ attempt (set set_k) (evict (count_command narrow)).1)
      × ((evict (count_command narrow)).1.database.memory_used ≤ narrow.database.memory_limit))
    ⊎ ((execute set_k narrow ≡ (ok (reply out_of_memory), (evict (count_command narrow)).1))
        × (narrow.database.memory_limit + 1 ≤ (evict (count_command narrow)).1.database.memory_used)
        × (allows_eviction narrow.database.policy ≡ false))
execute_within_limit_example =
    execute_within_limit (codes "set") (codes "k" ∷ codes "v" ∷ codes "px" ∷ codes "5" ∷ []) narrow
      (spec set (negsuc 2) true true) set_row set_fits refl refl refl narrow-IsSound narrow_limited
