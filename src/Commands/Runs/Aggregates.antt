-- ===== src/Commands/Runs/Aggregates.antt =====
-- src/commands.cpp: the commands on lists, hashes and sets are defined and keep the log's property.
use flash_kv.Common.{
  ◌%◌, ◌≡◌, refl, arith, Option, none, some, List, [], ◌∷◌, Bytes, Assoc, ltb, ◌==◌, length,
  is_some, Bool-cases, inl, inr,
}
use flash_kv.Common.Int.{ℤ}
use flash_kv.Database.State.{left, right}
use flash_kv.Database.Filled.Operations.{
  list_push-IsSafe, list_pop-IsSafe, list_range-IsSafe, list_index-IsSafe, list_length-IsSafe,
}
use flash_kv.Database.Filled.Aggregates.{
  hash_set-IsSafe, hash_get-IsSafe, hash_delete-IsSafe, hash_get_all-IsSafe, hash_length-IsSafe,
  hash_exists-IsSafe, set_add-IsSafe, set_remove-IsSafe, set_members-IsSafe, set_is_member-IsSafe,
  set_cardinality-IsSafe,
}
use flash_kv.Resp.Encode.{resp_integer, resp_array}
use flash_kv.Commands.Text.{parse_integer}
use flash_kv.Commands.Processor.{Arguments, signed, nullable_bulk}
use flash_kv.Commands.Lists.{lpush, rpush, lpop, rpop, range_of, lrange, llen, lindex}
use flash_kv.Commands.Hashes.{
  pairs_of, set_pairs, hset, hget, hdel, hgetall, hlen, hexists, hkeys, hvals,
}
use flash_kv.Commands.Sets.{sadd, srem, smembers, sismember, scard}
use flash_kv.Commands.Runs.{
  Log, IsClosed, Runs, pure-Runs, option-Runs, map-Runs, logged-Runs, logged_if-Runs,
}

module _ {R : Log → Type 0} (name key : Bytes) where
  range_of-Runs : (start stop : Option ℤ) → Runs R (range_of key start stop)
  unfolding range_of
  range_of-Runs (some start) (some stop) = map-Runs resp_array (list_range-IsSafe key start stop)
  range_of-Runs (some start) none = pure-Runs _
  range_of-Runs none stop = pure-Runs _

  pub lrange-Runs :
      (start stop : Bytes) (rest : List Bytes) → Runs R (lrange (name ∷ key ∷ start ∷ stop ∷ rest))
  unfolding lrange
  lrange-Runs start stop rest = range_of-Runs (parse_integer start) (parse_integer stop)

  module _ (rest : List Bytes) where
    pub llen-Runs : Runs R (llen (name ∷ key ∷ rest))
    unfolding llen
    llen-Runs = map-Runs _ (list_length-IsSafe key)

    pub hgetall-Runs : Runs R (hgetall (name ∷ key ∷ rest))
    unfolding hgetall
    hgetall-Runs = map-Runs _ (hash_get_all-IsSafe key)

    pub hlen-Runs : Runs R (hlen (name ∷ key ∷ rest))
    unfolding hlen
    hlen-Runs = map-Runs _ (hash_length-IsSafe key)

    pub hkeys-Runs : Runs R (hkeys (name ∷ key ∷ rest))
    unfolding hkeys
    hkeys-Runs = map-Runs _ (hash_get_all-IsSafe key)

    pub hvals-Runs : Runs R (hvals (name ∷ key ∷ rest))
    unfolding hvals
    hvals-Runs = map-Runs _ (hash_get_all-IsSafe key)

    pub smembers-Runs : Runs R (smembers (name ∷ key ∷ rest))
    unfolding smembers
    smembers-Runs = map-Runs _ (set_members-IsSafe key)

    pub scard-Runs : Runs R (scard (name ∷ key ∷ rest))
    unfolding scard
    scard-Runs = map-Runs _ (set_cardinality-IsSafe key)

  module _ (third : Bytes) (rest : List Bytes) where
    pub lindex-Runs : Runs R (lindex (name ∷ key ∷ third ∷ rest))
    unfolding lindex
    lindex-Runs =
        option-Runs (parse_integer third) (pure-Runs _)
          (λ i. map-Runs nullable_bulk (list_index-IsSafe key i))

    pub hget-Runs : Runs R (hget (name ∷ key ∷ third ∷ rest))
    unfolding hget
    hget-Runs = map-Runs nullable_bulk (hash_get-IsSafe key third)

    pub hexists-Runs : Runs R (hexists (name ∷ key ∷ third ∷ rest))
    unfolding hexists
    hexists-Runs = map-Runs _ (hash_exists-IsSafe key third)

    pub sismember-Runs : Runs R (sismember (name ∷ key ∷ third ∷ rest))
    unfolding sismember
    sismember-Runs = map-Runs _ (set_is_member-IsSafe key third)

module _ {R : Log → Type 0} (closed : IsClosed R) (name key : Bytes) where
  module _ (value : Bytes) (values : List Bytes) where
    pub lpush-Runs : Runs R (lpush (name ∷ key ∷ value ∷ values))
    unfolding lpush
    lpush-Runs =
        logged-Runs closed _ (λ size. resp_integer (signed size))
          (list_push-IsSafe key value values left)

    pub rpush-Runs : Runs R (rpush (name ∷ key ∷ value ∷ values))
    unfolding rpush
    rpush-Runs =
        logged-Runs closed _ (λ size. resp_integer (signed size))
          (list_push-IsSafe key value values right)

    pub sadd-Runs : Runs R (sadd (name ∷ key ∷ value ∷ values))
    unfolding sadd
    sadd-Runs =
        logged_if-Runs closed (ltb 0) _ (λ added. resp_integer (signed added))
          (set_add-IsSafe key value values)

  module _ (rest : List Bytes) where
    pub lpop-Runs : Runs R (lpop (name ∷ key ∷ rest))
    unfolding lpop
    lpop-Runs = logged_if-Runs closed is_some _ nullable_bulk (list_pop-IsSafe key left)

    pub rpop-Runs : Runs R (rpop (name ∷ key ∷ rest))
    unfolding rpop
    rpop-Runs = logged_if-Runs closed is_some _ nullable_bulk (list_pop-IsSafe key right)

    pub hdel-Runs : Runs R (hdel (name ∷ key ∷ rest))
    unfolding hdel
    hdel-Runs =
        logged_if-Runs closed (ltb 0) _ (λ removed. resp_integer (signed removed))
          (hash_delete-IsSafe key rest)

    pub srem-Runs : Runs R (srem (name ∷ key ∷ rest))
    unfolding srem
    srem-Runs =
        logged_if-Runs closed (ltb 0) _ (λ removed. resp_integer (signed removed))
          (set_remove-IsSafe key rest)

  -- An even number of arguments is pairs.
  pairs_of-even :
      (fields : List Bytes)
      → length fields % 2 ≡ 0
      → (pairs : Assoc Bytes) × pairs_of fields ≡ some pairs
  unfolding pairs_of
  pairs_of-even [] even = ([], refl)
  pairs_of-even (field ∷ []) even = ground (arith, even)
  pairs_of-even (field ∷ value ∷ rest) even =
      let (pairs, e) = pairs_of-even rest (ground arith) in ((field, value) ∷ pairs, rw e refl)

  set_pairs-Runs :
      (arguments : Arguments) (pair : Bytes × Bytes) (pairs : Assoc Bytes)
      → Runs R (set_pairs arguments key (some (pair ∷ pairs)))
  unfolding set_pairs
  set_pairs-Runs arguments pair pairs =
      logged-Runs closed arguments (λ added. resp_integer (signed added))
        (hash_set-IsSafe key pair pairs)

  pub hset-Runs :
      (field value : Bytes) (rest : List Bytes) → Runs R (hset (name ∷ key ∷ field ∷ value ∷ rest))
  unfolding hset
  hset-Runs field value rest =
      elim (Bool-cases (length (name ∷ key ∷ field ∷ value ∷ rest) % 2 == 0)) [
        | inr odd ↦ rw odd (pure-Runs _)
        | inl even ↦
            let (pairs, e) = pairs_of-even rest (ground arith) in
            rw even (unfold pairs_of in rw e (set_pairs-Runs _ (field, value) pairs))
      ]
