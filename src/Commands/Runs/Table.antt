-- ===== src/Commands/Runs/Table.antt =====
-- src/commands.cpp, `commandTable`: what every command keeps at its number of arguments.
use flash_kv.Common.{
  ℕ, suc, ◌≡◌, refl, arith, Bool, true, ◌||◌, some, List, [], ◌∷◌, Bytes, Assoc, codes, ◌===◌,
  length, lookup, ◌≤◌, ===_sound, subst, Bool-cases, inl, inr,
}
use flash_kv.Common.Int.{pos, negsuc}
use flash_kv.Commands.Processor.{Arguments}
use flash_kv.Commands.Table.{CommandSpec, command_table}
use flash_kv.Commands.Execute.{has_arity}
use flash_kv.Commands.Runs.{Log, IsClosed, Runs}
use flash_kv.Commands.Runs.Server.{
  ping-Runs, echo-Runs, select-Runs, command_info-Runs, dbsize-Runs, flushall-Runs, info-Runs,
  config-Runs, memory-Runs,
}
use flash_kv.Commands.Runs.Keyspace.{
  del-Runs, exists-Runs, type_of-Runs, keys-Runs, expire-Runs, pexpire-Runs, expireat-Runs,
  pexpireat-Runs, ttl-Runs, pttl-Runs, persist-Runs,
}
use flash_kv.Commands.Runs.Strings.{
  set-Runs, get-Runs, mset-Runs, mget-Runs, incr-Runs, decr-Runs, incrby-Runs, decrby-Runs,
  append-Runs, strlen-Runs,
}
use flash_kv.Commands.Runs.Aggregates.{
  lpush-Runs, rpush-Runs, lpop-Runs, rpop-Runs, lrange-Runs, llen-Runs, lindex-Runs, hset-Runs,
  hget-Runs, hdel-Runs, hgetall-Runs, hlen-Runs, hexists-Runs, hkeys-Runs, hvals-Runs, sadd-Runs,
  srem-Runs, smembers-Runs, sismember-Runs, scard-Runs,
}

-- The handler, at every number of arguments that the table allows.
pub record Fits (R : Log → Type 0) (spec : CommandSpec) : Type 0 where
  pub at :
      (arguments : Arguments)
      → has_arity spec.arity (length arguments) ≡ true
      → Runs R (spec.handler arguments)

-- A command that may append to the log: one that writes, and CONFIG, which evicts.
abbrev pub mutating : Bytes → CommandSpec → Bool
mutating name spec = spec.write || name === codes "CONFIG"

-- What is shown of each row.
abbrev pub IsRight : Bytes → CommandSpec → Type 1
IsRight name spec = (R : Log → Type 0) → (mutating name spec ≡ true → IsClosed R) → Fits R spec

infixr 4 ◌&◌
pub data AreRight : Assoc CommandSpec → Type 1 where
  no_more : AreRight []
  ◌&◌ :
      {name : Bytes} {spec : CommandSpec} {rows : Assoc CommandSpec}
      → IsRight name spec
      → AreRight rows
      → AreRight ((name, spec) ∷ rows)

module _ {R : Log → Type 0} {spec : CommandSpec} where
  any : ((arguments : Arguments) → Runs R (spec.handler arguments)) → Fits R spec
  any h = record { at = λ arguments fits. h arguments }

  from_one :
      ((n : ℕ) → has_arity spec.arity n ≡ true → 1 ≤ n)
      → ((a : Bytes) (rest : List Bytes) → Runs R (spec.handler (a ∷ rest)))
      → Fits R spec
  from_one enough h = record { at = go }
    where
      go :
          (arguments : Arguments)
          → has_arity spec.arity (length arguments) ≡ true
          → Runs R (spec.handler arguments)
      go [] fits = ground (arith, enough 0 fits)
      go (a ∷ rest) fits = h a rest

  from_two :
      ((n : ℕ) → has_arity spec.arity n ≡ true → 2 ≤ n)
      → ((a b : Bytes) (rest : List Bytes) → Runs R (spec.handler (a ∷ b ∷ rest)))
      → Fits R spec
  from_two enough h = record { at = go }
    where
      go :
          (arguments : Arguments)
          → has_arity spec.arity (length arguments) ≡ true
          → Runs R (spec.handler arguments)
      go [] fits = ground (arith, enough 0 fits)
      go (a ∷ []) fits = ground (arith, enough 1 fits)
      go (a ∷ b ∷ rest) fits = h a b rest

  from_three :
      ((n : ℕ) → has_arity spec.arity n ≡ true → 3 ≤ n)
      → ((a b c : Bytes) (rest : List Bytes) → Runs R (spec.handler (a ∷ b ∷ c ∷ rest)))
      → Fits R spec
  from_three enough h = record { at = go }
    where
      go :
          (arguments : Arguments)
          → has_arity spec.arity (length arguments) ≡ true
          → Runs R (spec.handler arguments)
      go [] fits = ground (arith, enough 0 fits)
      go (a ∷ []) fits = ground (arith, enough 1 fits)
      go (a ∷ b ∷ []) fits = ground (arith, enough 2 fits)
      go (a ∷ b ∷ c ∷ rest) fits = h a b c rest

  from_four :
      ((n : ℕ) → has_arity spec.arity n ≡ true → 4 ≤ n)
      → ((a b c d : Bytes) (rest : List Bytes) → Runs R (spec.handler (a ∷ b ∷ c ∷ d ∷ rest)))
      → Fits R spec
  from_four enough h = record { at = go }
    where
      go :
          (arguments : Arguments)
          → has_arity spec.arity (length arguments) ≡ true
          → Runs R (spec.handler arguments)
      go [] fits = ground (arith, enough 0 fits)
      go (a ∷ []) fits = ground (arith, enough 1 fits)
      go (a ∷ b ∷ []) fits = ground (arith, enough 2 fits)
      go (a ∷ b ∷ c ∷ []) fits = ground (arith, enough 3 fits)
      go (a ∷ b ∷ c ∷ d ∷ rest) fits = h a b c d rest

exactly : (m n : ℕ) → has_arity (pos (suc m)) n ≡ true → suc m ≤ n
unfolding has_arity
exactly m n e = ground (arith, e)

at_least : (m n : ℕ) → has_arity (negsuc m) n ≡ true → suc m ≤ n
unfolding has_arity
at_least m n e = ground (arith, e)

pub command_table-AreRight : AreRight command_table
unfolding command_table ◌===◌
command_table-AreRight =
    (λ R closed. any ping-Runs)
    & (λ R closed. from_two (exactly 1) echo-Runs)
    & (λ R closed. from_two (exactly 1) select-Runs)
    & (λ R closed. any command_info-Runs)
    & (λ R closed. any dbsize-Runs)
    & (λ R closed. any (flushall-Runs (closed refl)))
    & (λ R closed. any (flushall-Runs (closed refl)))
    & (λ R closed. any info-Runs)
    & (λ R closed. from_two (at_least 1) (config-Runs (closed refl)))
    & (λ R closed. from_two (at_least 1) memory-Runs)
    & (λ R closed. from_two (at_least 1) (λ a b rest. del-Runs (closed refl) a (b ∷ rest)))
    & (λ R closed. from_two (at_least 1) (λ a b rest. del-Runs (closed refl) a (b ∷ rest)))
    & (λ R closed. from_two (at_least 1) (λ a b rest. exists-Runs a (b ∷ rest)))
    & (λ R closed. from_two (exactly 1) type_of-Runs)
    & (λ R closed. from_two (exactly 1) keys-Runs)
    & (λ R closed. from_three (exactly 2) (expire-Runs (closed refl)))
    & (λ R closed. from_three (exactly 2) (pexpire-Runs (closed refl)))
    & (λ R closed. from_three (exactly 2) (expireat-Runs (closed refl)))
    & (λ R closed. from_three (exactly 2) (pexpireat-Runs (closed refl)))
    & (λ R closed. from_two (exactly 1) ttl-Runs)
    & (λ R closed. from_two (exactly 1) pttl-Runs)
    & (λ R closed. from_two (exactly 1) (persist-Runs (closed refl)))
    & (λ R closed. from_three (at_least 2) (set-Runs (closed refl)))
    & (λ R closed. from_two (exactly 1) get-Runs)
    & (λ R closed. from_three (at_least 2) (λ a b c rest. mset-Runs (closed refl) a (b ∷ c ∷ rest)))
    & (λ R closed. from_two (at_least 1) (λ a b rest. mget-Runs a (b ∷ rest)))
    & (λ R closed. from_two (exactly 1) (incr-Runs (closed refl)))
    & (λ R closed. from_two (exactly 1) (decr-Runs (closed refl)))
    & (λ R closed. from_three (exactly 2) (incrby-Runs (closed refl)))
    & (λ R closed. from_three (exactly 2) (decrby-Runs (closed refl)))
    & (λ R closed. from_three (exactly 2) (append-Runs (closed refl)))
    & (λ R closed. from_two (exactly 1) strlen-Runs)
    & (λ R closed. from_three (at_least 2) (lpush-Runs (closed refl)))
    & (λ R closed. from_three (at_least 2) (rpush-Runs (closed refl)))
    & (λ R closed. from_two (exactly 1) (lpop-Runs (closed refl)))
    & (λ R closed. from_two (exactly 1) (rpop-Runs (closed refl)))
    & (λ R closed. from_four (exactly 3) lrange-Runs)
    & (λ R closed. from_two (exactly 1) llen-Runs)
    & (λ R closed. from_three (exactly 2) lindex-Runs)
    & (λ R closed. from_four (at_least 3) (hset-Runs (closed refl)))
    & (λ R closed. from_three (exactly 2) hget-Runs)
    & (λ R closed. from_three (at_least 2) (λ a b c rest. hdel-Runs (closed refl) a b (c ∷ rest)))
    & (λ R closed. from_two (exactly 1) hgetall-Runs)
    & (λ R closed. from_two (exactly 1) hlen-Runs)
    & (λ R closed. from_three (exactly 2) hexists-Runs)
    & (λ R closed. from_two (exactly 1) hkeys-Runs)
    & (λ R closed. from_two (exactly 1) hvals-Runs)
    & (λ R closed. from_three (at_least 2) (sadd-Runs (closed refl)))
    & (λ R closed. from_three (at_least 2) (λ a b c rest. srem-Runs (closed refl) a b (c ∷ rest)))
    & (λ R closed. from_two (exactly 1) smembers-Runs)
    & (λ R closed. from_three (exactly 2) sismember-Runs)
    & (λ R closed. from_two (exactly 1) scard-Runs)
    & no_more

pub lookup-IsRight :
    (name : Bytes) {spec : CommandSpec} {rows : Assoc CommandSpec}
    → AreRight rows
    → lookup name rows ≡ some spec
    → IsRight name spec
unfolding lookup
lookup-IsRight name no_more e = ground (arith, e)
lookup-IsRight name {spec} (◌&◌ {name = k} {spec = row} right others) e =
    elim (Bool-cases (k === name)) [
      | inl same ↦
          subst (λ n. IsRight n spec) (===_sound k name same)
            (subst (IsRight k) (ground (arith, rw same at e)) right)
      | inr other ↦ lookup-IsRight name others (rw other at e)
    ]
