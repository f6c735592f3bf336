-- ===== src/Database/Filled/Time.antt =====
-- src/database.cpp: the operations on deadlines and on the whole keyspace are safe.
use flash_kv.Common.{
  ℕ, ◌≡◌, ◌≢◌, arith, Bool, true, false, Option, none, some, Bytes, Bool-cases, Option-cases, inl,
  inr, lookup, contains, ◌+◌, ap,
}
use flash_kv.Common.Int.{ℤ, pos, leb_ℤ, eqb_ℤ, ◌-ℤ◌}
use flash_kv.Common.Exec.{Outcome, ok, throw, undefined, pure, continue, run, ◌>>=◌}
use flash_kv.Database.State.{Db, Database, Entry, EvictionPolicy, no_expiry, find_live, now}
use flash_kv.Database.Expiry.{
  expire_at_ms, ttl_ms, ttl, round_seconds, read_clock, evict_if_needed, active_expire_cycle,
  set_max_memory, set_eviction_policy, inspect,
}
use flash_kv.Database.Keyspace.{keys, clear}
use flash_kv.Database.Preserves.Expiry.{
  expire_at_ms-IsWellFormed, ttl_ms-IsWellFormed, keys-IsWellFormed, clear-IsWellFormed,
  inspect-IsWellFormed,
}
use flash_kv.Database.Invariant.{IsWellFormed}
use flash_kv.Database.Eviction.{evict_if_needed-Evicts, evict_if_needed-IsWellFormed}
use flash_kv.Database.Cycle.{active_expire_cycle-Drops}
use native.Mathlib.Decide.{ℕ_discrete}
use flash_kv.Database.Live.{content, content_of, live_cases, purged, read_at}
use flash_kv.Database.Refine.{erase-Writes}
use flash_kv.Database.Refine.Primitives.{set_expiry-Writes}
use flash_kv.Database.Filled.{
  IsFilled, AreFilled, IsSound, IsSafe, Writes-AreFilled, ok-ne-undefined,
}

-- The two parts that are not the invariant.
abbrev IsKept : {A : Type 0} → Outcome A × Database → Type 0
IsKept r = (r.0 ≢ throw undefined) × AreFilled r.1

live-IsKept :
    {A : Type 0} (k : Bytes) (body : Option Entry → Db A)
    → ((db : Database) → AreFilled db → IsKept (body none db))
    → ((e : Entry) (db : Database)
        → lookup k db.entries ≡ some e
        → AreFilled db
        → IsKept (body (some e) db))
    → (db : Database) → AreFilled db
    → IsKept ((find_live k >>= body) db)
live-IsKept k body missing found db filled =
    live_cases k db body IsKept (λ e. missing db filled)
      (λ e at_k timed late.
        missing (purged k (db.clock_reads + 1) db)
          (Writes-AreFilled (erase-Writes k (read_at (db.clock_reads + 1) db)) tt filled))
      (λ e n at_k kept. found e (read_at n db) at_k filled)

kept-IsSafe :
    {A : Type 0} (m : Db A)
    → ((db : Database) → IsWellFormed db → IsWellFormed (m db).1)
    → ((db : Database) → AreFilled db → IsKept (m db))
    → IsSafe m
kept-IsSafe m keeps kept = record {
  sound = λ db s. record { well_formed = keeps db s.well_formed; filled = (kept db s.filled).1 };
  defined = λ db s. (kept db s.filled).0;
}

module _ (k : Bytes) where
  pub expire_at_ms-IsSafe : (t : ℤ) → IsSafe (expire_at_ms k t)
  unfolding expire_at_ms
  expire_at_ms-IsSafe t = kept-IsSafe (expire_at_ms k t) (expire_at_ms-IsWellFormed k t) (
      live-IsKept k _ (λ db filled. (ok-ne-undefined false, filled))
        (λ e db at_k filled. elim (Bool-cases (leb_ℤ t (db.clock db.clock_reads))) [
          | inl past ↦
              rw past (ok-ne-undefined true, Writes-AreFilled (erase-Writes k (now db).1) tt filled)
          | inr future ↦ rw future (
              let kept : IsFilled (content k db) = filled k in
              (
                ok-ne-undefined true,
                Writes-AreFilled (set_expiry-Writes k {db = (now db).1} (ap content_of at_k) t)
                    (rw at_k at kept) filled,
              ))
        ]))

  ttl_ms-IsKept : (db : Database) → AreFilled db → IsKept (ttl_ms k db)
  unfolding ttl_ms
  ttl_ms-IsKept =
      live-IsKept k _ (λ db filled. (ok-ne-undefined _, filled))
        (λ e db at_k filled. elim (Bool-cases (eqb_ℤ e.expires_at_ms no_expiry)) [
          | inl never ↦ rw never (ok-ne-undefined _, filled)
          | inr timed ↦ rw timed (ok-ne-undefined _, filled)
        ])

  pub ttl_ms-IsSafe : IsSafe (ttl_ms k)
  ttl_ms-IsSafe = kept-IsSafe (ttl_ms k) (ttl_ms-IsWellFormed k) ttl_ms-IsKept

  pub inspect-IsSafe : IsSafe (inspect k)
  inspect-IsSafe = kept-IsSafe (inspect k) (inspect-IsWellFormed k) kept
    where
      kept : (db : Database) → AreFilled db → IsKept (inspect k db)
      kept db filled =
          unfold inspect in
          elim (Option-cases (lookup k db.entries)) [
            | inl none_ ↦ rw (none_, inspect) (ok-ne-undefined _, filled)
            | inr (e, at_k) ↦
                rw (at_k, inspect)
                  (elim (Bool-cases (eqb_ℤ e.expires_at_ms no_expiry)) [
                    | inl never ↦ rw never (ok-ne-undefined _, filled)
                    | inr timed ↦
                        rw timed
                          (elim (Bool-cases
                            (leb_ℤ (e.expires_at_ms -ℤ db.clock db.clock_reads) (pos 0))) [
                              | inl due ↦ rw due (ok-ne-undefined _, filled)
                              | inr early ↦ rw early (ok-ne-undefined _, filled)
                            ])
                  ])
          ]

-- Behind a call, with the result changed.
pub map-IsSafe : {A B : Type 0} (m : Db A) (f : A → B) → IsSafe m → IsSafe (m >>= λ a. pure (f a))
map-IsSafe {A} {B} m f s = record {
  sound = λ db h. go (m db) (s.sound db h);
  defined = λ db h. out (m db) (s.defined db h);
}
  where
    go : (r : Outcome A × Database) → IsSound r.1 → IsSound (continue r.0 (λ a. pure (f a)) r.1).1
    go (ok a, db) h = h
    go (throw e, db) h = h

    out :
        (r : Outcome A × Database)
        → r.0 ≢ throw undefined
        → (continue r.0 (λ a. pure (f a)) r.1).0 ≢ throw undefined
    out (ok a, db) h = ok-ne-undefined (f a)
    out (throw e, db) h = λ q. h (ground (arith, q))

pub ttl-IsSafe : (k : Bytes) → IsSafe (ttl k)
unfolding ttl
ttl-IsSafe k = map-IsSafe (ttl_ms k) round_seconds (ttl_ms-IsSafe k)

pub keys-IsSafe : (pattern : Bytes) → IsSafe (keys pattern)
keys-IsSafe pattern =
    kept-IsSafe (keys pattern) (keys-IsWellFormed pattern)
      (λ db filled. unfold keys in (ok-ne-undefined _, filled))

pub read_clock-IsSafe : IsSafe read_clock
read_clock-IsSafe =
    kept-IsSafe read_clock (λ db w. unfold now in w)
      (λ db filled. unfold now in (ok-ne-undefined _, filled))

pub clear-IsSafe : IsSafe (run clear)
clear-IsSafe =
    kept-IsSafe (run clear) (λ db w. clear-IsWellFormed db)
      (λ db filled. (ok-ne-undefined _, λ j. unfold clear lookup in tt))

pub set_max_memory-IsSafe : (bytes : ℕ) → IsSafe (run (set_max_memory bytes))
set_max_memory-IsSafe bytes =
    kept-IsSafe (run (set_max_memory bytes)) (λ db w. unfold set_max_memory in w)
      (λ db filled. unfold set_max_memory in (ok-ne-undefined _, filled))

pub set_eviction_policy-IsSafe :
    (policy : EvictionPolicy) → IsSafe (run (set_eviction_policy policy))
set_eviction_policy-IsSafe policy =
    kept-IsSafe (run (set_eviction_policy policy)) (λ db w. unfold set_eviction_policy in w)
      (λ db filled. unfold set_eviction_policy in (ok-ne-undefined _, filled))

pub evict_if_needed-IsSound : (db : Database) → IsSound db → IsSound (evict_if_needed db).2
evict_if_needed-IsSound db s = record {
  well_formed = evict_if_needed-IsWellFormed db s.well_formed;
  filled = λ j. elim (ℕ_discrete db.memory_limit 0) [
    | yes unlimited ↦ unfold evict_if_needed in rw unlimited (s.filled j)
    | no limited ↦
        let h = evict_if_needed-Evicts db s.well_formed limited in
        rw (h.view j) (elim (Bool-cases (contains j h.out)) [
          | inl gone ↦ rw gone tt
          | inr kept ↦ rw kept (s.filled j)
        ])
  ];
}

pub active_expire_cycle-IsSafe :
    (samples : ℕ) (late : ℕ → Bool) → IsSafe (active_expire_cycle samples late)
active_expire_cycle-IsSafe samples late = record {
  sound = λ db s.
      let (n, counted, h) = active_expire_cycle-Drops samples late db s.well_formed in
      record {
        well_formed = h.well_formed;
        filled =
            λ j. elim (h.view j) [ inl same ↦ rw same (s.filled j) | inr (gone, due) ↦ rw gone tt ];
      };
  defined = λ db s.
      let (n, counted, h) = active_expire_cycle-Drops samples late db s.well_formed in
      rw counted (ok-ne-undefined n);
}
