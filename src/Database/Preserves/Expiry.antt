-- ===== src/Database/Preserves/Expiry.antt =====
-- Expiration and the operations on the whole keyspace keep the invariant.
use flash_kv.Common.{ℕ, refl, arith, Bytes, Bool-cases, Option-cases, inl, inr, lookup, contains}
use flash_kv.Common.Int.{ℤ, pos, leb_ℤ, eqb_ℤ, ◌-ℤ◌, checked_mul, checked_add, llong_max}
use flash_kv.Common.Exec.{Outcome, ok, throw, continue, pure}
use flash_kv.Database.State.{Database, now, no_expiry, empty_database}
use flash_kv.Database.Expiry.{
  expire_at_ms, expire, deadline_after, persist, ttl_ms, ttl, round_seconds, inspect, saturated,
}
use flash_kv.Database.Keyspace.{keys, clear}
use flash_kv.Database.Invariant.{IsWellFormed, total}
use flash_kv.Database.Invariant.Nodes.{
  erase-IsWellFormed, set_expiry-IsWellFormed, clear_expiry-IsWellFormed,
}
use flash_kv.Database.Typed.{Sound, found_induction}

pub expire_at_ms-IsWellFormed :
    (k : Bytes) (t : ℤ) (db : Database) → IsWellFormed db → IsWellFormed (expire_at_ms k t db).1
unfolding expire_at_ms
expire_at_ms-IsWellFormed k t db w =
    found_induction k db w Sound _ (λ db' w'. w')
      λ e db' h. elim (Bool-cases (leb_ℤ t (db'.clock db'.clock_reads))) [
        | inl past ↦ rw past (erase-IsWellFormed k (now db').1 {e = h.entry} h.found h.well_formed)
        | inr future ↦
            rw future (set_expiry-IsWellFormed k t (now db').1 {e = h.entry} h.found h.well_formed)
      ]

pub expire-IsWellFormed :
    (k : Bytes) (seconds : ℤ) (db : Database)
    → IsWellFormed db
    → IsWellFormed (expire k seconds db).1
unfolding expire
expire-IsWellFormed k seconds db w = elim (Bool-cases (leb_ℤ seconds (pos 0))) [
  | inl past ↦ rw past (expire_at_ms-IsWellFormed k (now db).0 (now db).1 w)
  | inr future ↦ rw future (elim (Option-cases (checked_mul seconds (pos 1000))) [
    | inl over ↦ rw (over, deadline_after) (expire_at_ms-IsWellFormed k llong_max db w)
    | inr (ms, fits) ↦
        rw (fits, deadline_after)
          (expire_at_ms-IsWellFormed k (saturated (checked_add (now db).0 ms)) (now db).1 w)
  ])
]

pub persist-IsWellFormed :
    (k : Bytes) (db : Database) → IsWellFormed db → IsWellFormed (persist k db).1
unfolding persist
persist-IsWellFormed k db w =
    found_induction k db w Sound _ (λ db' w'. w')
      λ e db' h. elim (Bool-cases (eqb_ℤ e.expires_at_ms no_expiry)) [
        | inl never ↦ rw never h.well_formed
        | inr timed ↦ rw timed (clear_expiry-IsWellFormed k db' h.well_formed)
      ]

pub ttl_ms-IsWellFormed :
    (k : Bytes) (db : Database) → IsWellFormed db → IsWellFormed (ttl_ms k db).1
unfolding ttl_ms
ttl_ms-IsWellFormed k db w =
    found_induction k db w Sound _ (λ db' w'. w')
      λ e db' h. elim (Bool-cases (eqb_ℤ e.expires_at_ms no_expiry)) [
        | inl never ↦ rw never h.well_formed
        | inr timed ↦ rw timed h.well_formed
      ]

pub keys-IsWellFormed :
    (pattern : Bytes) (db : Database) → IsWellFormed db → IsWellFormed (keys pattern db).1
unfolding keys
keys-IsWellFormed pattern db w = w

pub clear-IsWellFormed : (db : Database) → IsWellFormed (clear db)
unfolding clear contains lookup total
clear-IsWellFormed db = record {
  linked = record { distinct = tt; unique = tt; listed = λ k. refl };
  indexed = record {
    sound = λ k i s. ground arith;
    complete = λ k i s. ground arith;
    unmarked = λ k e s. ground arith;
  };
  metered = record { each = λ k e s. ground arith; sum = ground arith };
  proper = record { all = λ k e s. absurd (ground arith) };
}

pub empty_database-IsWellFormed :
    (clock : ℕ → ℤ) (draw : ℕ → ℕ → ℕ) → IsWellFormed (empty_database clock draw)
unfolding empty_database clear
empty_database-IsWellFormed clock draw = clear-IsWellFormed (empty_database clock draw)

-- A step that only computes with the result leaves the state alone.
computed_after :
    {A B : Type 0} (r : Outcome A) (f : A → B) (db : Database)
    → IsWellFormed db
    → IsWellFormed (continue r (λ a. pure (f a)) db).1
computed_after (ok a) f db w = w
computed_after (throw e) f db w = w

pub ttl-IsWellFormed : (k : Bytes) (db : Database) → IsWellFormed db → IsWellFormed (ttl k db).1
unfolding ttl
ttl-IsWellFormed k db w =
    computed_after (ttl_ms k db).0 round_seconds (ttl_ms k db).1 (ttl_ms-IsWellFormed k db w)

pub inspect-IsWellFormed :
    (k : Bytes) (db : Database) → IsWellFormed db → IsWellFormed (inspect k db).1
unfolding inspect
inspect-IsWellFormed k db w = elim (Option-cases (lookup k db.entries)) [
  | inl missing ↦ rw (missing, inspect) w
  | inr (e, found) ↦
      rw (found, inspect)
        (elim (Bool-cases (eqb_ℤ e.expires_at_ms no_expiry)) [
          | inl never ↦ rw never w
          | inr timed ↦
              rw timed
                (elim (Bool-cases (leb_ℤ (e.expires_at_ms -ℤ db.clock db.clock_reads) (pos 0))) [
                  | inl due ↦ rw due w
                  | inr early ↦ rw early w
                ])
        ])
]
