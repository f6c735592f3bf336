-- ===== src/Commands/Runs/Execute.antt =====
-- src/commands.cpp, `execute`: what a whole command keeps, and when it changes the log.
use mathlib.Core.Option
use flash_kv.Common.{
  ◌≡◌, ◌≢◌, refl, ap, true, not, ◌&&◌, Option, none, some, List, [], ◌∷◌, ◌++◌, Bytes, codes, ◌===◌,
  length, lookup, Bool-cases, inl, inr,
}
use flash_kv.Common.Exec.{Outcome, ok, throw, wrong_type, not_integer, overflow, undefined, run}
use flash_kv.Database.Filled.{ok-ne-undefined}
use flash_kv.Aof.Flush
use flash_kv.Aof.Replay.{append_all}
use flash_kv.Commands.Text.{uppercase}
use flash_kv.Commands.Processor.{Command, Arguments}
use flash_kv.Commands.Table.{CommandSpec, command_table}
use flash_kv.Commands.Execute.{
  reply, has_arity, caught, finish, attempt, misconf, out_of_memory, write_command, run_command,
  dispatch, count_command, execute, quit_reply,
}
use flash_kv.Commands.Runs.{
  Log, IsClosed, Runs, pure-Runs, gets-Runs, if-Runs, bind-Runs, evict-Runs,
}
use flash_kv.Commands.Runs.Table.{mutating, IsRight, command_table-AreRight, lookup-IsRight}

module _ {R : Log → Type 0} where
  finish-Runs : (result : Outcome Bytes) → result ≢ throw undefined → Runs R (finish result)
  unfolding caught
  finish-Runs (ok payload) h = pure-Runs (reply payload)
  finish-Runs (throw wrong_type) h = pure-Runs _
  finish-Runs (throw not_integer) h = pure-Runs _
  finish-Runs (throw overflow) h = pure-Runs _
  finish-Runs (throw undefined) h = absurd (h refl)

  attempt-Runs : {handler : Command Bytes} → Runs R handler → Runs R (attempt handler)
  unfolding attempt
  attempt-Runs {handler} k = record {
    kept = λ p h. (finish-Runs (handler p).0 (k.defined p h)).kept (handler p).1 (k.kept p h);
    defined = λ p h. (finish-Runs (handler p).0 (k.defined p h)).defined (handler p).1 (k.kept p h);
  }

  write_command-Runs :
      IsClosed R
      → (spec : CommandSpec) (arguments : Arguments) → Runs R (spec.handler arguments)
      → Runs R (write_command spec arguments)
  unfolding write_command
  write_command-Runs closed spec arguments k = bind-Runs (gets-Runs _) (λ writable.
      if-Runs (not writable) (pure-Runs (reply misconf)) (
        bind-Runs (evict-Runs closed) (λ within.
          if-Runs (not within && spec.deny_oom) (pure-Runs (reply out_of_memory))
            (attempt-Runs k))))

  run_command-Runs :
      (spec : CommandSpec) (arguments : Arguments)
      → (spec.write ≡ true → IsClosed R)
      → Runs R (spec.handler arguments)
      → Runs R (run_command spec arguments)
  unfolding run_command
  run_command-Runs spec arguments closed k = elim (Bool-cases spec.write) [
    | inl writes ↦ rw writes (write_command-Runs (closed writes) spec arguments k)
    | inr reads ↦ rw reads (attempt-Runs k)
  ]

  count_command-Runs : Runs R (run count_command)
  count_command-Runs = record { kept = λ p h. h; defined = λ p h. ok-ne-undefined tt }

  module _ (first : Bytes) (rest : List Bytes) where
    dispatch-Runs :
        (spec : Option CommandSpec) (name : Bytes)
        → ((s : CommandSpec) → spec ≡ some s → IsRight name s)
        → ((s : CommandSpec) → spec ≡ some s → mutating name s ≡ true → IsClosed R)
        → Runs R (dispatch spec name first rest)
    unfolding dispatch
    dispatch-Runs none name right closed = pure-Runs _
    dispatch-Runs (some spec) name right closed =
        elim (Bool-cases (has_arity spec.arity (length (first ∷ rest)))) [
          | inr wrong ↦ rw wrong (pure-Runs _)
          | inl fits ↦ rw fits (
              run_command-Runs spec (first ∷ rest) (λ writes. closed spec refl (rw writes refl))
                ((right spec refl R (closed spec refl)).at (first ∷ rest) fits))
        ]

    pub execute-Runs :
        ((s : CommandSpec)
          → lookup (uppercase first) command_table ≡ some s
          → mutating (uppercase first) s ≡ true
          → IsClosed R)
        → Runs R (execute (first ∷ rest))
    unfolding execute
    execute-Runs closed = bind-Runs count_command-Runs (λ _.
        if-Runs (uppercase first === codes "QUIT") (pure-Runs quit_reply) (
          dispatch-Runs (lookup (uppercase first) command_table) (uppercase first)
            (λ s. lookup-IsRight (uppercase first) command_table-AreRight) closed))

-- The log after whole commands were appended to `before`.
abbrev pub IsExtended : Log → Log → Type 0
IsExtended before aof =
    (commands : List Arguments) × (aof ≡ Option.map (append_all commands) before)

append_all-append :
    (commands : List Arguments) (c : Arguments) (aof : Flush.AppendOnlyFile)
    → Flush.append c (append_all commands aof) ≡ append_all (commands ++ c ∷ []) aof
append_all-append [] c aof = refl
append_all-append (d ∷ commands) c aof = append_all-append commands c (Flush.append d aof)

pub IsExtended-IsClosed : (before : Log) → IsClosed (IsExtended before)
IsExtended-IsClosed none arguments aof (commands, e) = (commands, rw e refl)
IsExtended-IsClosed (some file) arguments aof (commands, e) =
    (commands ++ arguments ∷ [], rw e (ap some (append_all-append commands arguments file)))

pub empty-Runs : {R : Log → Type 0} → Runs R (execute [])
unfolding execute
empty-Runs = pure-Runs _

pub unchanged : (aof : Log) → aof ≡ Option.map (append_all []) aof
unchanged none = refl
unchanged (some file) = refl
