-- ===== src/Commands/Runs.antt =====
-- src/commands.cpp: what a handler keeps, one rule for each way to build one.
pub mod Strings
pub mod Keyspace
pub mod Aggregates
pub mod Server
pub mod Table
pub mod Execute
pub mod Replies
use mathlib.Core.Option
use flash_kv.Common.{
  ◌≡◌, ◌≢◌, refl, arith, Bool, true, false, Option, none, some, List, [], ◌∷◌, Bytes, if◌then◌else◌,
}
use flash_kv.Common.Int.{ℤ}
use flash_kv.Common.Exec.{
  Outcome, ok, throw, Error, wrong_type, undefined, pure, raise, continue, ◌>>=◌,
}
use flash_kv.Database.State.{Db, Database}
use flash_kv.Database.Filled.{IsSound, IsSafe, ok-ne-undefined}
use flash_kv.Database.Filled.Time.{evict_if_needed-IsSound}
use flash_kv.Aof.Flush
use flash_kv.Aof.Flush.{AppendOnlyFile}
use flash_kv.Commands.Processor.{
  Command, CommandProcessor, Arguments, call, gets, propagate, propagate_expiry,
  propagate_deletions, evict, evict_keys,
}
use flash_kv.Commands.Keyspace.{propagate_if}

abbrev pub Log : Type 0
Log = Option AppendOnlyFile

-- What one more command in the log does.
abbrev pub appended : Arguments → Log → Log
appended arguments aof = Option.map (Flush.append arguments) aof

-- A property of the log that appending a command keeps.
abbrev pub IsClosed : (Log → Type 0) → Type 0
IsClosed R = (arguments : Arguments) (aof : Log) → R aof → R (appended arguments aof)

-- The database is sound and the log has the property.
abbrev pub IsRunning : (Log → Type 0) → CommandProcessor → Type 0
IsRunning R p = IsSound p.database × R p.aof

-- Both stay, and the behaviour is defined.
pub record Runs (R : Log → Type 0) {A : Type 0} (m : Command A) : Type 0 where
  pub kept : (p : CommandProcessor) → IsRunning R p → IsRunning R (m p).1
  pub defined : (p : CommandProcessor) → IsRunning R p → (m p).0 ≢ throw undefined

module _ {R : Log → Type 0} where
  pub pure-Runs : {A : Type 0} (a : A) → Runs R (pure {S = CommandProcessor} a)
  pure-Runs a = record { kept = λ p h. h; defined = λ p h. ok-ne-undefined a }

  pub gets-Runs : {A : Type 0} (f : CommandProcessor → A) → Runs R (gets f)
  gets-Runs f = record { kept = λ p h. h; defined = λ p h. ok-ne-undefined (f p) }

  pub call-Runs : {A : Type 0} {m : Db A} → IsSafe m → Runs R (call m)
  call-Runs s = record {
    kept = λ p (sound, log). (s.sound p.database sound, log);
    defined = λ p (sound, log). s.defined p.database sound;
  }

  pub if-Runs :
      {A : Type 0} (b : Bool) {m n : Command A} → Runs R m → Runs R n → Runs R (if b then m else n)
  if-Runs true km kn = km
  if-Runs false km kn = kn

  pub option-Runs :
      {A B : Type 0} (o : Option A) {n : Command B} {f : A → Command B}
      → Runs R n
      → ((a : A) → Runs R (f a))
      → Runs R (elim o [ none ↦ n | some a ↦ f a ])
  option-Runs none kn kf = kn
  option-Runs (some a) kn kf = kf a

  continue-kept :
      {A B : Type 0} (r : Outcome A × CommandProcessor) (f : A → Command B)
      → IsRunning R r.1
      → ((a : A) → Runs R (f a))
      → IsRunning R (continue r.0 f r.1).1
  continue-kept (ok a, p) f h kf = (kf a).kept p h
  continue-kept (throw e, p) f h kf = h

  continue-defined :
      {A B : Type 0} (r : Outcome A × CommandProcessor) (f : A → Command B)
      → IsRunning R r.1
      → r.0 ≢ throw undefined
      → ((a : A) → Runs R (f a))
      → (continue r.0 f r.1).0 ≢ throw undefined
  continue-defined (ok a, p) f h d kf = (kf a).defined p h
  continue-defined (throw e, p) f h d kf = λ q. d (ground (arith, q))

  pub bind-Runs :
      {A B : Type 0} {m : Command A} {f : A → Command B}
      → Runs R m
      → ((a : A) → Runs R (f a))
      → Runs R (m >>= f)
  bind-Runs {A} {B} {m} {f} km kf = record {
    kept = λ p h. continue-kept (m p) f (km.kept p h) kf;
    defined = λ p h. continue-defined (m p) f (km.kept p h) (km.defined p h) kf;
  }

  pub map-Runs :
      {A B : Type 0} {m : Db A} (f : A → B) → IsSafe m → Runs R (call m >>= λ a. pure (f a))
  map-Runs f s = bind-Runs (call-Runs s) (λ a. pure-Runs (f a))

module _ {R : Log → Type 0} (closed : IsClosed R) where
  pub propagate-Runs : (arguments : Arguments) → Runs R (propagate arguments)
  unfolding propagate
  propagate-Runs arguments = record {
    kept = λ p (sound, log). (sound, closed arguments p.aof log);
    defined = λ p h. ok-ne-undefined tt;
  }

  pub propagate_expiry-Runs : (key : Bytes) (time : ℤ) → Runs R (propagate_expiry key time)
  propagate_expiry-Runs key time = unfold propagate_expiry in propagate-Runs _

  pub propagate_if-Runs : (b : Bool) (arguments : Arguments) → Runs R (propagate_if b arguments)
  unfolding propagate_if
  propagate_if-Runs true arguments = propagate-Runs arguments
  propagate_if-Runs false arguments = pure-Runs tt

  propagate_deletions-Runs : (keys : List Bytes) → Runs R (propagate_deletions keys)
  unfolding propagate_deletions
  propagate_deletions-Runs [] = pure-Runs tt
  propagate_deletions-Runs (key ∷ keys) =
      bind-Runs (propagate-Runs _) (λ _. propagate_deletions-Runs keys)

  pub evict-Runs : Runs R evict
  unfolding evict
  evict-Runs =
      bind-Runs {m = evict_keys}
        (record {
          kept = λ p (sound, log). (evict_if_needed-IsSound p.database sound, log);
          defined = λ p h q. ground (arith, q);
        })
        (λ (within, keys). bind-Runs (propagate_deletions-Runs keys) (λ _. pure-Runs within))

  -- A call, its command in the log, and a reply.
  pub logged-Runs :
      {A B : Type 0} {m : Db A} (arguments : Arguments) (f : A → B)
      → IsSafe m
      → Runs R (call m >>= λ a. propagate arguments >>= λ _. pure (f a))
  logged-Runs arguments f s =
      bind-Runs (call-Runs s) (λ a. bind-Runs (propagate-Runs arguments) (λ _. pure-Runs (f a)))

  pub logged_if-Runs :
      {A B : Type 0} {m : Db A} (test : A → Bool) (arguments : Arguments) (f : A → B)
      → IsSafe m
      → Runs R (call m >>= λ a. propagate_if (test a) arguments >>= λ _. pure (f a))
  logged_if-Runs test arguments f s =
      bind-Runs (call-Runs s)
        (λ a. bind-Runs (propagate_if-Runs (test a) arguments) (λ _. pure-Runs (f a)))
