-- ===== src/Commands/Runs/Strings.antt =====
-- src/commands.cpp: the commands on strings are defined and keep the log's property.
use flash_kv.Common.{
  ◌%◌, Bool, true, false, not, ◌&&◌, ◌||◌, Option, none, some, List, [], ◌∷◌, ◌++◌, Bytes, codes,
  ◌==◌, ◌===◌, length, is_some, ◌≡◌, ◌≢◌, refl, arith, Bool-cases, inl, inr,
}
use flash_kv.Common.Int.{ℤ, pos, negsuc, leb_ℤ, eqb_ℤ, checked_mul, checked_add, llong_min, ◌-ℤ◌}
use flash_kv.Common.Exec.{Outcome, ok, throw, wrong_type, not_integer, overflow, undefined}
use flash_kv.Database.State.{Database}
use flash_kv.Database.Strings.{get as db_get}
use flash_kv.Database.Filled.{IsSound, ok-ne-undefined}
use flash_kv.Database.Filled.Operations.{
  exists-IsSafe, set-IsSafe, get-IsSafe, string_length-IsSafe, append-IsSafe, increment_by-IsSafe,
}
use flash_kv.Database.Filled.Time.{expire_at_ms-IsSafe, read_clock-IsSafe}
use flash_kv.Resp.Encode.{resp_simple_string, resp_integer, resp_null}
use flash_kv.Commands.Text.{uppercase, parse_integer}
use flash_kv.Commands.Processor.{CommandProcessor, Arguments, signed, nullable_bulk}
use flash_kv.Commands.Strings.{
  Options, refused, accepted, option_deadline, set_options, set_deadline, store, set_with, set, get,
  mset_loop, mset, value_or_null, mget_loop, mget, increment, incr, decr, incrby, decrby, append,
  strlen,
}
use flash_kv.Commands.Runs.{
  Log, IsClosed, IsRunning, Runs, pure-Runs, option-Runs, call-Runs, if-Runs, bind-Runs, map-Runs,
  propagate-Runs, propagate_expiry-Runs, logged-Runs,
}

module _ {R : Log → Type 0} where
  option_deadline-Runs : (amount unit_ms : ℤ) → Runs R (option_deadline amount unit_ms)
  unfolding option_deadline
  option_deadline-Runs amount unit_ms = if-Runs (leb_ℤ amount (pos 0)) (pure-Runs none) (
      option-Runs (checked_mul amount unit_ms) (pure-Runs none)
        (λ ms. map-Runs (checked_add ms) read_clock-IsSafe))

  set_options-Runs :
      (options : List Bytes) (nx xx : Bool) (time : Option ℤ)
      → Runs R (set_options options nx xx time)
  unfolding set_options
  set_options-Runs [] nx xx time = pure-Runs _
  set_options-Runs (o ∷ []) nx xx time =
      if-Runs (uppercase o === codes "NX") (pure-Runs _)
        (if-Runs (uppercase o === codes "XX") (pure-Runs _) (pure-Runs _))
  set_options-Runs (o ∷ a ∷ rest) nx xx time =
      if-Runs (uppercase o === codes "NX") (set_options-Runs (a ∷ rest) true xx time) (
        if-Runs (uppercase o === codes "XX") (set_options-Runs (a ∷ rest) nx true time) (
          if-Runs ((uppercase o === codes "EX" || uppercase o === codes "PX") && not (is_some time))
            (option-Runs (parse_integer a) (pure-Runs _) (λ amount.
              bind-Runs (option_deadline-Runs amount _) (λ when.
                option-Runs when (pure-Runs _) (λ ms. set_options-Runs rest nx xx (some ms)))))
            (pure-Runs _)))

  module _ (name key : Bytes) (rest : List Bytes) where
    pub get-Runs : Runs R (get (name ∷ key ∷ rest))
    unfolding get
    get-Runs = map-Runs nullable_bulk (get-IsSafe key)

    pub strlen-Runs : Runs R (strlen (name ∷ key ∷ rest))
    unfolding strlen
    strlen-Runs = map-Runs _ (string_length-IsSafe key)

  value_or_null-Runs : (key : Bytes) → Runs R (value_or_null key)
  unfolding value_or_null
  value_or_null-Runs key = record {
    kept = λ p (sound, log).
        after (db_get key p.database) ((get-IsSafe key).sound p.database sound) p log;
    defined =
        λ p (sound, log). out (db_get key p.database) ((get-IsSafe key).defined p.database sound) p;
  }
    where
      shown : Outcome (Option Bytes) × CommandProcessor → Outcome Bytes × CommandProcessor
      shown r = elim r.0 [
        | ok value ↦ (ok (nullable_bulk value), r.1)
        | throw e ↦ elim e [ wrong_type ↦ (ok resp_null, r.1) | other ↦ (throw other, r.1) ]
      ]

      after :
          (r : Outcome (Option Bytes) × Database)
          → IsSound r.1
          → (p : CommandProcessor) → R p.aof
          → IsRunning R (shown (r.0, record p { database = r.1 })).1
      after (ok v, db) sound p log = (sound, log)
      after (throw wrong_type, db) sound p log = (sound, log)
      after (throw not_integer, db) sound p log = (sound, log)
      after (throw overflow, db) sound p log = (sound, log)
      after (throw undefined, db) sound p log = (sound, log)

      out :
          (r : Outcome (Option Bytes) × Database)
          → r.0 ≢ throw undefined
          → (p : CommandProcessor) → (shown (r.0, record p { database = r.1 })).0 ≢ throw undefined
      out (ok v, db) h p = ok-ne-undefined _
      out (throw wrong_type, db) h p = ok-ne-undefined _
      out (throw not_integer, db) h p = λ q. ground (arith, q)
      out (throw overflow, db) h p = λ q. ground (arith, q)
      out (throw undefined, db) h p = λ q. h refl

  mget_loop-Runs : (keys values : List Bytes) → Runs R (mget_loop keys values)
  unfolding mget_loop
  mget_loop-Runs [] values = pure-Runs values
  mget_loop-Runs (key ∷ keys) values =
      bind-Runs (value_or_null-Runs key) (λ value. mget_loop-Runs keys (values ++ value ∷ []))

  pub mget-Runs : (name : Bytes) (keys : List Bytes) → Runs R (mget (name ∷ keys))
  unfolding mget
  mget-Runs name keys = bind-Runs (mget_loop-Runs keys []) (λ _. pure-Runs _)

  mset_loop-Runs : (pairs : List Bytes) → length pairs % 2 ≡ 0 → Runs R (mset_loop pairs)
  unfolding mset_loop
  mset_loop-Runs [] even = pure-Runs tt
  mset_loop-Runs (key ∷ []) even = ground (arith, even)
  mset_loop-Runs (key ∷ value ∷ rest) even =
      bind-Runs (call-Runs (set-IsSafe key value)) (λ _. mset_loop-Runs rest (ground arith))

module _ {R : Log → Type 0} (closed : IsClosed R) where
  set_deadline-Runs : (key : Bytes) (time : Option ℤ) → Runs R (set_deadline key time)
  unfolding set_deadline
  set_deadline-Runs key none = pure-Runs tt
  set_deadline-Runs key (some time) =
      bind-Runs (call-Runs (expire_at_ms-IsSafe key time))
        (λ _. propagate_expiry-Runs closed key time)

  store-Runs : (key value : Bytes) (time : Option ℤ) → Runs R (store key value time)
  unfolding store
  store-Runs key value time = bind-Runs (call-Runs (set-IsSafe key value)) (λ _.
      bind-Runs (propagate-Runs closed _) (λ _.
        bind-Runs (set_deadline-Runs key time) (λ _. pure-Runs (resp_simple_string (codes "OK")))))

  set_with-Runs : (key value : Bytes) (options : Options) → Runs R (set_with key value options)
  unfolding set_with
  set_with-Runs key value (refused reply) = pure-Runs reply
  set_with-Runs key value (accepted nx xx time) = if-Runs (nx && xx) (pure-Runs _) (
      bind-Runs (call-Runs (exists-IsSafe key)) (λ present.
        if-Runs (nx && present || xx && not present) (pure-Runs _) (store-Runs key value time)))

  pub set-Runs :
      (name key value : Bytes) (options : List Bytes) → Runs R (set (name ∷ key ∷ value ∷ options))
  unfolding set
  set-Runs name key value options =
      bind-Runs (set_options-Runs options false false none)
        (λ parsed. set_with-Runs key value parsed)

  pub mset-Runs : (name : Bytes) (pairs : List Bytes) → Runs R (mset (name ∷ pairs))
  unfolding mset
  mset-Runs name pairs = elim (Bool-cases (length (name ∷ pairs) % 2 == 0)) [
    | inl odd ↦ rw odd (pure-Runs _)
    | inr even ↦ rw even (
        bind-Runs (mset_loop-Runs pairs (ground arith)) (λ _.
          bind-Runs (propagate-Runs closed (name ∷ pairs))
            (λ _. pure-Runs (resp_simple_string (codes "OK")))))
  ]

  increment-Runs :
      (arguments : Arguments) (key : Bytes) (delta : ℤ) → Runs R (increment arguments key delta)
  unfolding increment
  increment-Runs arguments key delta =
      logged-Runs closed arguments resp_integer (increment_by-IsSafe key delta)

  module _ (name key : Bytes) (rest : List Bytes) where
    pub incr-Runs : Runs R (incr (name ∷ key ∷ rest))
    unfolding incr
    incr-Runs = increment-Runs _ key (pos 1)

    pub decr-Runs : Runs R (decr (name ∷ key ∷ rest))
    unfolding decr
    decr-Runs = increment-Runs _ key (negsuc 0)

  module _ (name key amount : Bytes) (rest : List Bytes) where
    pub incrby-Runs : Runs R (incrby (name ∷ key ∷ amount ∷ rest))
    unfolding incrby
    incrby-Runs =
        option-Runs (parse_integer amount) (pure-Runs _) (λ delta. increment-Runs _ key delta)

    pub decrby-Runs : Runs R (decrby (name ∷ key ∷ amount ∷ rest))
    unfolding decrby
    decrby-Runs = option-Runs (parse_integer amount) (pure-Runs _) (λ delta.
        if-Runs (eqb_ℤ delta llong_min) (pure-Runs _) (increment-Runs _ key (pos 0 -ℤ delta)))

    pub append-Runs : Runs R (append (name ∷ key ∷ amount ∷ rest))
    unfolding append
    append-Runs =
        logged-Runs closed (name ∷ key ∷ amount ∷ rest) (λ size. resp_integer (signed size))
          (append-IsSafe key amount)
