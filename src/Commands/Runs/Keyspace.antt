-- ===== src/Commands/Runs/Keyspace.antt =====
-- src/commands.cpp: the commands on keys and deadlines are defined and keep the log's property.
use flash_kv.Common.{ℕ, Bool, true, false, Option, none, some, List, [], ◌∷◌, Bytes, ltb}
use flash_kv.Common.Int.{ℤ, pos, checked_mul, checked_add}
use flash_kv.Database.Filled.Operations.{del-IsSafe, exists-IsSafe, type_of-IsSafe, persist-IsSafe}
use flash_kv.Database.Filled.Time.{
  expire_at_ms-IsSafe, ttl_ms-IsSafe, ttl-IsSafe, keys-IsSafe, read_clock-IsSafe,
}
use flash_kv.Resp.Encode.{resp_integer}
use flash_kv.Commands.Text.{parse_integer}
use flash_kv.Commands.Keyspace.{
  del_loop, del, exists_loop, exists, type_of, keys, deadline, propagate_deadline, set_deadline,
  expire_amount, expire_generic, expire, pexpire, expireat, pexpireat, ttl, pttl, persist,
}
use flash_kv.Commands.Runs.{
  Log, IsClosed, Runs, pure-Runs, option-Runs, call-Runs, if-Runs, bind-Runs, map-Runs,
  propagate-Runs, propagate_expiry-Runs, propagate_if-Runs,
}

module _ {R : Log → Type 0} where
  exists_loop-Runs : (keys : List Bytes) (found : ℕ) → Runs R (exists_loop keys found)
  unfolding exists_loop
  exists_loop-Runs [] found = pure-Runs found
  exists_loop-Runs (key ∷ keys) found =
      bind-Runs (call-Runs (exists-IsSafe key)) (λ there. exists_loop-Runs keys _)

  pub exists-Runs : (name : Bytes) (keys : List Bytes) → Runs R (exists (name ∷ keys))
  unfolding exists
  exists-Runs name keys = bind-Runs (exists_loop-Runs keys 0) (λ n. pure-Runs _)

  module _ (name key : Bytes) (rest : List Bytes) where
    pub type_of-Runs : Runs R (type_of (name ∷ key ∷ rest))
    unfolding type_of
    type_of-Runs = map-Runs _ (type_of-IsSafe key)

    pub keys-Runs : Runs R (keys (name ∷ key ∷ rest))
    unfolding keys
    keys-Runs = map-Runs _ (keys-IsSafe key)

    pub ttl-Runs : Runs R (ttl (name ∷ key ∷ rest))
    unfolding ttl
    ttl-Runs = map-Runs _ (ttl-IsSafe key)

    pub pttl-Runs : Runs R (pttl (name ∷ key ∷ rest))
    unfolding pttl
    pttl-Runs = map-Runs _ (ttl_ms-IsSafe key)

  deadline-Runs : (ms : Option ℤ) (absolute : Bool) → Runs R (deadline ms absolute)
  unfolding deadline
  deadline-Runs none absolute = pure-Runs none
  deadline-Runs (some ms) true = pure-Runs (some ms)
  deadline-Runs (some ms) false = map-Runs (checked_add ms) read_clock-IsSafe

module _ {R : Log → Type 0} (closed : IsClosed R) where
  del_loop-Runs : (keys : List Bytes) (deleted : ℕ) → Runs R (del_loop keys deleted)
  unfolding del_loop
  del_loop-Runs [] deleted = pure-Runs deleted
  del_loop-Runs (key ∷ keys) deleted =
      bind-Runs (call-Runs (del-IsSafe key)) (λ there. del_loop-Runs keys _)

  pub del-Runs : (name : Bytes) (keys : List Bytes) → Runs R (del (name ∷ keys))
  unfolding del
  del-Runs name keys =
      bind-Runs (del_loop-Runs keys 0)
        (λ n. bind-Runs (propagate_if-Runs closed (ltb 0 n) (name ∷ keys)) (λ _. pure-Runs _))

  propagate_deadline-Runs :
      (kept : Bool) (key : Bytes) (time : ℤ) → Runs R (propagate_deadline kept key time)
  unfolding propagate_deadline
  propagate_deadline-Runs true key time = propagate_expiry-Runs closed key time
  propagate_deadline-Runs false key time = propagate-Runs closed _

  set_deadline-Runs : (key : Bytes) (time : ℤ) → Runs R (set_deadline key time)
  unfolding set_deadline
  set_deadline-Runs key time = bind-Runs (call-Runs (expire_at_ms-IsSafe key time)) (λ there.
      if-Runs there
        (bind-Runs (call-Runs (exists-IsSafe key))
          (λ kept. bind-Runs (propagate_deadline-Runs kept key time) (λ _. pure-Runs _)))
        (pure-Runs _))

  expire_amount-Runs :
      (name key : Bytes) (amount : Option ℤ) (unit_ms : ℤ) (absolute : Bool)
      → Runs R (expire_amount name key amount unit_ms absolute)
  unfolding expire_amount
  expire_amount-Runs name key none unit_ms absolute = pure-Runs _
  expire_amount-Runs name key (some amount) unit_ms absolute =
      bind-Runs (deadline-Runs (checked_mul amount unit_ms) absolute)
        (λ time. option-Runs time (pure-Runs _) (λ ms. set_deadline-Runs key ms))

  module _ (name key amount : Bytes) (rest : List Bytes) where
    pub expire_generic-Runs :
        (unit_ms : ℤ) (absolute : Bool)
        → Runs R (expire_generic (name ∷ key ∷ amount ∷ rest) unit_ms absolute)
    unfolding expire_generic
    expire_generic-Runs unit_ms absolute =
        expire_amount-Runs name key (parse_integer amount) unit_ms absolute

    pub expire-Runs : Runs R (expire (name ∷ key ∷ amount ∷ rest))
    expire-Runs = unfold expire in expire_generic-Runs _ _

    pub pexpire-Runs : Runs R (pexpire (name ∷ key ∷ amount ∷ rest))
    pexpire-Runs = unfold pexpire in expire_generic-Runs _ _

    pub expireat-Runs : Runs R (expireat (name ∷ key ∷ amount ∷ rest))
    expireat-Runs = unfold expireat in expire_generic-Runs _ _

    pub pexpireat-Runs : Runs R (pexpireat (name ∷ key ∷ amount ∷ rest))
    pexpireat-Runs = unfold pexpireat in expire_generic-Runs _ _

  pub persist-Runs : (name key : Bytes) (rest : List Bytes) → Runs R (persist (name ∷ key ∷ rest))
  unfolding persist
  persist-Runs name key rest = bind-Runs (call-Runs (persist-IsSafe key)) (λ done.
      if-Runs done
        (bind-Runs (propagate-Runs closed (name ∷ key ∷ rest))
          (λ _. pure-Runs (resp_integer (pos 1))))
        (pure-Runs (resp_integer (pos 0))))
