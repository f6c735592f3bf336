-- ===== src/Commands/Runs/Replies.antt =====
-- src/commands.cpp, `execute`: no exception leaves it, so that a defined result is a reply.
use flash_kv.Common.{
  ◌≡◌, ◌≢◌, refl, arith, Bool, true, false, not, ◌&&◌, Option, none, some, List, [], ◌∷◌, Bytes,
  codes, if◌then◌else◌, ◌===◌, length, lookup,
}
use flash_kv.Common.Exec.{
  Outcome, ok, throw, Error, wrong_type, not_integer, overflow, undefined, pure, run, continue,
  ◌>>=◌,
}
use flash_kv.Commands.Text.{uppercase}
use flash_kv.Commands.Processor.{
  Command, CommandProcessor, CommandReply, Arguments, gets, evict, evict_keys, propagate,
  propagate_deletions,
}
use flash_kv.Commands.Table.{CommandSpec, command_table}
use flash_kv.Commands.Execute.{
  reply, has_arity, caught, finish, attempt, write_command, run_command, dispatch, count_command,
  execute, quit_reply, misconf, out_of_memory, log_healthy,
}

-- What a command raises is of this kind.
record Raises (E : Error → Type 0) {A : Type 0} (m : Command A) : Type 0 where
  raised : (p : CommandProcessor) (e : Error) → (m p).0 ≡ throw e → E e

module _ {E : Error → Type 0} where
  pure-Raises : {A : Type 0} (a : A) → Raises E (pure {S = CommandProcessor} a)
  pure-Raises a = record { raised = λ p e q. ground (arith, q) }

  gets-Raises : {A : Type 0} (f : CommandProcessor → A) → Raises E (gets f)
  gets-Raises f = record { raised = λ p e q. ground (arith, q) }

  if-Raises :
      {A : Type 0} (b : Bool) {m n : Command A}
      → Raises E m
      → Raises E n
      → Raises E (if b then m else n)
  if-Raises true km kn = km
  if-Raises false km kn = kn

  bind-Raises :
      {A B : Type 0} {m : Command A} {f : A → Command B}
      → Raises E m
      → ((a : A) → Raises E (f a))
      → Raises E (m >>= f)
  bind-Raises {A} {B} {m} {f} km kf = record { raised = λ p. go (m p) (km.raised p) }
    where
      go :
          (r : Outcome A × CommandProcessor)
          → ((e : Error) → r.0 ≡ throw e → E e)
          → (e : Error) → (continue r.0 f r.1).0 ≡ throw e
          → E e
      go (ok a, p) h e q = (kf a).raised p e q
      go (throw d, p) h e q = h e (ground (arith, q))

  propagate_deletions-Raises : (keys : List Bytes) → Raises E (propagate_deletions keys)
  unfolding propagate_deletions propagate
  propagate_deletions-Raises [] = pure-Raises tt
  propagate_deletions-Raises (key ∷ keys) =
      bind-Raises {m = propagate (codes "DEL" ∷ key ∷ [])}
        (record { raised = λ p e q. ground (arith, q) }) (λ _. propagate_deletions-Raises keys)

  evict-Raises : Raises E evict
  unfolding evict
  evict-Raises =
      bind-Raises {m = evict_keys} (record { raised = λ p e q. ground (arith, q) })
        (λ (within, keys). bind-Raises (propagate_deletions-Raises keys) (λ _. pure-Raises within))

abbrev IsUndefined : Error → Type 0
IsUndefined e = e ≡ undefined

finish-Raises : (result : Outcome Bytes) → Raises IsUndefined (finish result)
unfolding caught
finish-Raises (ok payload) = pure-Raises (reply payload)
finish-Raises (throw wrong_type) = pure-Raises _
finish-Raises (throw not_integer) = pure-Raises _
finish-Raises (throw overflow) = pure-Raises _
finish-Raises (throw undefined) = record { raised = λ p e q. ground (arith, q) }

attempt-Raises : (handler : Command Bytes) → Raises IsUndefined (attempt handler)
unfolding attempt
attempt-Raises handler = record {
  raised = λ p e q. (finish-Raises (handler p).0).raised (handler p).1 e q;
}

run_command-Raises :
    (spec : CommandSpec) (arguments : Arguments) → Raises IsUndefined (run_command spec arguments)
unfolding run_command write_command
run_command-Raises spec arguments =
    if-Raises spec.write
      (bind-Raises (gets-Raises (λ p. log_healthy p.aof)) (λ writable.
        if-Raises (not writable) (pure-Raises (reply misconf)) (
          bind-Raises evict-Raises (λ within.
            if-Raises (not within && spec.deny_oom) (pure-Raises (reply out_of_memory))
              (attempt-Raises (spec.handler arguments))))))
      (attempt-Raises (spec.handler arguments))

dispatch-Raises :
    (spec : Option CommandSpec) (name first : Bytes) (rest : List Bytes)
    → Raises IsUndefined (dispatch spec name first rest)
unfolding dispatch
dispatch-Raises none name first rest = pure-Raises _
dispatch-Raises (some spec) name first rest =
    if-Raises (has_arity spec.arity (length (first ∷ rest)))
      (run_command-Raises spec (first ∷ rest)) (pure-Raises _)

execute-Raises : (arguments : Arguments) → Raises IsUndefined (execute arguments)
unfolding execute
execute-Raises [] = pure-Raises _
execute-Raises (first ∷ rest) =
    bind-Raises {m = run count_command} (record { raised = λ p e q. ground (arith, q) })
      (λ _.
        if-Raises (uppercase first === codes "QUIT") (pure-Raises quit_reply)
          (dispatch-Raises (lookup (uppercase first) command_table) (uppercase first) first rest))

pub execute_answers :
    (arguments : Arguments) (p : CommandProcessor)
    → (execute arguments p).0 ≢ throw undefined
    → (r : CommandReply) × (execute arguments p).0 ≡ ok r
execute_answers arguments p defined =
    go (execute arguments p).0 ((execute-Raises arguments).raised p) defined
  where
    go :
        (o : Outcome CommandReply)
        → ((e : Error) → o ≡ throw e → e ≡ undefined)
        → o ≢ throw undefined
        → (r : CommandReply) × o ≡ ok r
    go (ok r) h d = (r, refl)
    go (throw e) h d = absurd (d (rw (h e refl) refl))
