-- ===== src/Commands/Answers.antt =====
-- src/commands.cpp, `execute`: the answer, the state of the database and the log behind every command.
use mathlib.Core.Option
use flash_kv.Common.{
  ℕ, ◌≡◌, ◌≢◌, refl, arith, Bool, true, false, ◌||◌, Option, none, some, List, [], ◌∷◌, Bytes,
  codes, ◌===◌, ===_sound, length, lookup, Bool-cases, inl, inr, ◌≤◌, ◌+◌, ◌⊎◌, subst, ◌++◌, sym,
  ap, ◌∙◌, Option-cases,
}
use flash_kv.Common.Int.{ℤ}
use flash_kv.Common.Exec.{Outcome, ok, throw}
use flash_kv.Database.State.{Database, empty_database}
use flash_kv.Database.Preserves.Expiry.{empty_database-IsWellFormed}
use flash_kv.Database.Filled.Time.{read_clock-IsSafe}
use flash_kv.Database.Expiry.{evict_if_needed, allows_eviction}
use flash_kv.Database.Eviction.{evict_if_needed-Evicts}
use flash_kv.Database.Filled.{IsSound}
use flash_kv.Aof.Flush.{AppendOnlyFile}
use flash_kv.Aof.Replay.{append_all}
use flash_kv.Commands.Text.{uppercase}
use flash_kv.Commands.Processor.{
  CommandProcessor, CommandReply, Arguments, new_processor, evict, evict_keys, propagate,
  propagate_deletions,
}
use flash_kv.Commands.Table.{CommandSpec, command_table}
use flash_kv.Commands.Execute.{
  reply, has_arity, attempt, misconf, out_of_memory, write_command, run_command, dispatch,
  count_command, execute, log_healthy,
}
use flash_kv.Resp.Encode.{resp_error, resp_error_with_code}
use flash_kv.Commands.Runs.{Log, IsClosed, IsRunning, Runs}
use flash_kv.Commands.Runs.Execute.{
  execute-Runs, empty-Runs, unchanged, IsExtended, IsExtended-IsClosed,
}
use flash_kv.Commands.Runs.Replies.{execute_answers}

pub empty_database-IsSound :
    (clock : ℕ → ℤ) (draw : ℕ → ℕ → ℕ) → IsSound (empty_database clock draw)
empty_database-IsSound clock draw = record {
  well_formed = empty_database-IsWellFormed clock draw;
  filled = λ k. unfold empty_database lookup in tt;
}

pub new_processor-IsSound :
    (db : Database) (aof : Option AppendOnlyFile)
    → IsSound db
    → IsSound (new_processor db aof).database
unfolding new_processor
new_processor-IsSound db aof sound = read_clock-IsSafe.sound db sound

execute_kept :
    {R : Log → Type 0} → IsClosed R → (arguments : Arguments) → Runs R (execute arguments)
execute_kept closed [] = empty-Runs
execute_kept closed (first ∷ rest) = execute-Runs first rest (λ _ _ _. closed)

-- On a database whose invariant holds and where no list, hash or set is stored empty, `execute`
-- answers any list of arguments with a reply: no handler reads past its arguments or takes from an
-- empty list, and no exception leaves it. Behind it the database is such a database again.
pub execute-IsSound :
    (arguments : Arguments) (p : CommandProcessor)
    → IsSound p.database
    → IsSound (execute arguments p).1.database × (r : CommandReply) × (execute arguments p).0 ≡ ok r
execute-IsSound arguments p sound =
    let runs = execute_kept (IsExtended-IsClosed p.aof) arguments in
    let start : IsRunning (IsExtended p.aof) p = (sound, ([], unchanged p.aof)) in
    let (r, e) = execute_answers arguments p (runs.defined p start) in ((runs.kept p start).0, r, e)

-- On a sound database `execute`, with any arguments, changes the log in no other way than by
-- appending some whole commands, one after the other; without a log it attaches none.
pub execute-IsExtended :
    (arguments : Arguments) (p : CommandProcessor)
    → IsSound p.database
    → (commands : List Arguments) × ((execute arguments p).1.aof
        ≡ Option.map (append_all commands) p.aof)
execute-IsExtended arguments p sound =
    ((execute_kept (IsExtended-IsClosed p.aof) arguments).kept p (sound, ([], unchanged p.aof))).1

-- On a sound database, where the row of the command, if there is one, is not marked as a write and
-- the name is not CONFIG, `execute` leaves the log as it was.
pub execute_reads :
    (first : Bytes) (rest : List Bytes) (p : CommandProcessor)
    → IsSound p.database
    → ((s : CommandSpec)
        → lookup (uppercase first) command_table ≡ some s
        → (s.write || uppercase first === codes "CONFIG") ≡ false)
    → (execute (first ∷ rest) p).1.aof ≡ p.aof
execute_reads first rest p sound reads =
    ((execute-Runs {R = λ aof. aof ≡ p.aof} first rest
        (λ s found writes. ground (arith, reads s found, writes))).kept
      p (sound, refl)).1

propagate_deletions_result :
    (keys : List Bytes) (p : CommandProcessor)
    → ((propagate_deletions keys p).0 ≡ ok tt)
      × ((propagate_deletions keys p).1.database ≡ p.database)
unfolding propagate_deletions propagate
propagate_deletions_result [] p = (refl, refl)
propagate_deletions_result (key ∷ keys) p = propagate_deletions_result keys _

-- `evictIfNeeded` of the processor is that of the database, with the log written.
evict_result :
    (p : CommandProcessor)
    → ((evict p).0 ≡ ok (evict_if_needed p.database).0)
      × ((evict p).1.database ≡ (evict_if_needed p.database).2)
unfolding evict
evict_result p =
    let (done, after) =
      propagate_deletions_result (evict_if_needed p.database).1 (evict_keys p).1 in
    (rw done refl, rw done after)

module _ (first : Bytes) (rest : List Bytes) (p : CommandProcessor) (s : CommandSpec)
    (found : lookup (uppercase first) command_table ≡ some s)
    (fits : has_arity s.arity (length (first ∷ rest)) ≡ true) (writes : s.write ≡ true) where
  -- QUIT is no row of the table.
  is_command : (uppercase first === codes "QUIT") ≡ false
  is_command = elim (Bool-cases (uppercase first === codes "QUIT")) [
    | inl quit ↦ absurd (
        ground
          (arith, subst (λ n. lookup n command_table ≡ some s) (===_sound _ _ quit) found, no_quit))
    | inr other ↦ other
  ]
    where
      no_quit : lookup (codes "QUIT") command_table ≡ none
      no_quit = unfold lookup command_table ◌===◌ in refl

  run_write : execute (first ∷ rest) p ≡ write_command s (first ∷ rest) (count_command p)
  unfolding execute dispatch run_command
  run_write = rw (is_command, found, fits, writes) refl

  -- For a command that the table marks as a write, with a number of arguments that it allows, and a
  -- log whose last write failed, `execute` answers MISCONF; the only change is the counter of
  -- commands.
  execute-misconf :
      log_healthy p.aof ≡ false → execute (first ∷ rest) p ≡ (ok (reply misconf), count_command p)
  execute-misconf broken = rw run_write (unfold write_command in rw broken refl)

  run_within :
      log_healthy p.aof ≡ true
      → (r : Outcome Bool × CommandProcessor) → evict (count_command p) ≡ r
      → r.0 ≡ ok true
      → execute (first ∷ rest) p ≡ attempt (s.handler (first ∷ rest)) r.1
  run_within healthy r e within =
      rw run_write (unfold write_command in rw (healthy, e, within) refl)

  run_beyond :
      log_healthy p.aof ≡ true
      → s.deny_oom ≡ true
      → (r : Outcome Bool × CommandProcessor) → evict (count_command p) ≡ r
      → r.0 ≡ ok false
      → execute (first ∷ rest) p ≡ (ok (reply out_of_memory), r.1)
  run_beyond healthy denies r e beyond =
      rw run_write (unfold write_command in rw (healthy, e, beyond, denies) refl)

  -- For a command that the table marks as a write and as one to refuse without memory, with a number
  -- of arguments that it allows, a log that is attached healthy or not at all, a sound database and
  -- a memory limit that is not 0: behind the eviction either the memory is within the limit and
  -- `execute` goes on with the handler from there, or the memory is above the limit, the policy
  -- allows no eviction, and `execute` answers OOM without a call of the handler.
  pub execute_within_limit :
      log_healthy p.aof ≡ true
      → s.deny_oom ≡ true
      → IsSound p.database
      → p.database.memory_limit ≢ 0
      → ((execute (first ∷ rest) p ≡ attempt (s.handler (first ∷ rest)) (evict (count_command p)).1)
          × ((evict (count_command p)).1.database.memory_used ≤ p.database.memory_limit))
        ⊎ ((execute (first ∷ rest) p ≡ (ok (reply out_of_memory), (evict (count_command p)).1))
            × (p.database.memory_limit + 1 ≤ (evict (count_command p)).1.database.memory_used)
            × (allows_eviction p.database.policy ≡ false))
  execute_within_limit healthy denies sound limited =
      let h = evict_if_needed-Evicts p.database sound.well_formed limited in
      let (result, after) = evict_result (count_command p) in
      elim (Bool-cases (evict_if_needed p.database).0) [
        | inl within ↦ inl (
          run_within healthy (evict (count_command p)) refl (rw (result, within) refl),
          rw after (h.accepted within),
        )
        | inr beyond ↦
            let (above, keeps) = h.refused beyond in
            inr (
              run_beyond healthy denies (evict (count_command p)) refl (rw (result, beyond) refl),
              (rw after above),
              keeps,
            )
      ]

abbrev pub marked_write : Option CommandSpec → Bool
marked_write none = false
marked_write (some spec) = spec.write

-- The replies to a write that is not run, as they stand on the wire.
abbrev pub misconf_text : Bytes
misconf_text = codes "-MISCONF Errors writing to the AOF file. Write commands are disabled.\r\n"

abbrev pub arity_text : Bytes
arity_text = codes "-ERR wrong number of arguments for '"

-- Whether the row, if there is one, allows the number of arguments.
abbrev pub allows : ℕ → Option CommandSpec → Bool
allows count none = false
allows count (some spec) = has_arity spec.arity count

abbrev pub IsRefusal : Bool → Bytes → Type 0
IsRefusal true payload = payload ≡ misconf_text
IsRefusal false payload = (text : Bytes) × (payload ≡ arity_text ++ text)

-- The reply to a write is the error that fits its number of arguments, and the database stays.
abbrev pub IsRefused : Bool → Database → Outcome CommandReply × CommandProcessor → Type 0
IsRefused fits db (throw e, q) = ⊥
IsRefused fits db (ok reply, q) = (q.database ≡ db) × IsRefusal fits reply.payload

module _ (first : Bytes) (rest : List Bytes) (p : CommandProcessor)
    (broken : log_healthy p.aof ≡ false) (sound : IsSound p.database)
    (other : (uppercase first === codes "CONFIG") ≡ false) where
  quit_writes :
      (uppercase first === codes "QUIT") ≡ true
      → marked_write (lookup (uppercase first) command_table) ≡ false
  quit_writes quit = rw (===_sound _ _ quit) (unfold lookup command_table ◌===◌ in refl)

  write-IsRefused :
      (s : CommandSpec)
      → lookup (uppercase first) command_table ≡ some s
      → s.write ≡ true
      → (uppercase first === codes "QUIT") ≡ false
      → ((execute (first ∷ rest) p).1.aof ≡ p.aof)
        × IsRefused
            (has_arity s.arity (length (first ∷ rest)))
            p.database
            (execute (first ∷ rest) p)
  write-IsRefused s found writes no_quit =
      elim (Bool-cases (has_arity s.arity (length (first ∷ rest)))) [
        | inl fits ↦
            rw (fits, execute-misconf first rest p s found fits writes broken)
              (refl, (refl, (unfold misconf resp_error_with_code in refl)))
        | inr unfit ↦
            unfold execute dispatch resp_error in
            rw (no_quit, found, unfit) (refl, (refl, (_, refl)))
      ]

  unmarked :
      marked_write (lookup (uppercase first) command_table) ≡ false
      → (execute (first ∷ rest) p).1.aof ≡ p.aof
  unmarked reads = execute_reads first rest p sound λ s found.
      let no_write : s.write ≡ false = sym (ap marked_write found) ∙ reads in
      rw (no_write, other) refl

  -- With a log whose last write failed and a sound database, `execute` of any command but CONFIG
  -- leaves the log as it was; where the row of the command is marked as a write, the database stays
  -- too, and the answer is the MISCONF error where the number of arguments is allowed, and otherwise
  -- that of a wrong number of arguments, byte for byte up to the name of the command.
  pub execute_unhealthy :
      ((execute (first ∷ rest) p).1.aof ≡ p.aof)
      × ((marked_write (lookup (uppercase first) command_table) ≡ false)
          ⊎ IsRefused
              (allows (length (first ∷ rest)) (lookup (uppercase first) command_table))
              p.database
              (execute (first ∷ rest) p))
  execute_unhealthy = elim (Option-cases (lookup (uppercase first) command_table)) [
    | inl missing ↦ (unmarked (ap marked_write missing), inl (ap marked_write missing))
    | inr (s, found) ↦ elim (Bool-cases s.write) [
      | inr reads ↦
          let no_write = ap marked_write found ∙ reads in (unmarked no_write, inl no_write)
      | inl writes ↦ elim (Bool-cases (uppercase first === codes "QUIT")) [
        | inl quit ↦ (unmarked (quit_writes quit), inl (quit_writes quit))
        | inr command ↦
            let (same, refused) = write-IsRefused s found writes command in
            (same, inr (rw found refused))
      ]
    ]
  ]
