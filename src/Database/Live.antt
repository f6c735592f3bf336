-- ===== src/Database/Live.antt =====
-- `findLive`: how an operation begins. The abstract view of the keyspace: for each key its value
-- and its deadline.
use flash_kv.Common.{
  ℕ, ◌+◌, ◌≡◌, refl, inl, inr, true, false, Option, none, some, arith, Bytes, Option-cases,
  Bool-cases, ◌===◌, ===_refl, if◌then◌else◌, lookup, lookup-without, lookup-modify, back?,
}
use flash_kv.Common.Int.{ℤ, eqb_ℤ, leb_ℤ}
use flash_kv.Common.Exec.{Outcome, ◌>>=◌}
use flash_kv.Database.State.{
  Db, Database, Entry, Value, slot, unmark, swap_and_pop, leave_sample, clear_expiry, erase, create,
  find_live, no_expiry, count_expired,
}
use flash_kv.Database.Invariant.{IsWellFormed}
use flash_kv.Database.Invariant.Nodes.{erase-IsWellFormed}

abbrev pub content_of : Option Entry → Option (Value × ℤ)
content_of none = none
content_of (some e) = some (e.value, e.expires_at_ms)

-- The view of one key.
abbrev pub content : Bytes → Database → Option (Value × ℤ)
content k db = content_of (lookup k db.entries)

-- Leaving the vector does not show in the view.
content-leave_sample :
    (o : Option ℕ) (j : Bytes) (db : Database) → content j (leave_sample o db) ≡ content j db
unfolding swap_and_pop
content-leave_sample none j db = refl
content-leave_sample (some i) j db = elim (Option-cases (back? db.volatile_keys)) [
  | inl nothing ↦ rw (nothing, swap_and_pop)
  | inr (last, at_end) ↦
      rw (at_end, swap_and_pop)
        (ground
          (arith, lookup-modify last j (λ e. record e { volatile_index = some i }) db.entries))
]

abbrev pub forever : Option (Value × ℤ) → Option (Value × ℤ)
forever none = none
forever (some (v, _)) = some (v, no_expiry)

pub content-clear_expiry :
    (k j : Bytes) (db : Database)
    → content j (clear_expiry k db) ≡ (if k === j then forever (content j db) else content j db)
unfolding clear_expiry
content-clear_expiry k j db =
    let left = leave_sample (slot k db.entries) db in
    ground
      (arith, lookup-modify k j unmark left.entries, content-leave_sample (slot k db.entries) j db)

pub content-erase :
    (k j : Bytes) (db : Database)
    → content j (erase k db) ≡ (if k === j then none else content j db)
unfolding erase
content-erase k j db =
    ground (arith, lookup-without k j (clear_expiry k db).entries, content-clear_expiry k j db)

pub content-create :
    (k j : Bytes) (v : Value) (db : Database)
    → lookup k db.entries ≡ none
    → content j (create k v db) ≡ (if k === j then some (v, no_expiry) else content j db)
unfolding create
content-create k j v db missing = rw missing (unfold lookup in ground arith)

pub lookup-erase_self : (k : Bytes) (db : Database) → lookup k (erase k db).entries ≡ none
unfolding erase
lookup-erase_self k db = ground (arith, lookup-without k k (clear_expiry k db).entries, ===_refl k)

-- What an access at the time `current` finds of a stored value with its deadline.
abbrev pub settle : ℤ → Option (Value × ℤ) → Option (Value × ℤ)
settle current none = none
settle current (some (v, t)) =
    if eqb_ℤ t no_expiry then some (v, t) else if leb_ℤ t current then none else some (v, t)

-- The state behind `n` readings of the clock.
abbrev pub read_at : ℕ → Database → Database
read_at n db = record db { clock_reads = n }

-- The state in which an expired key is found missing.
abbrev pub purged : Bytes → ℕ → Database → Database
purged k n db = count_expired 1 (erase k (read_at n db))

module _ {A : Type 0} (k : Bytes) (db : Database) (body : Option Entry → Db A) where
  -- What holds behind each of the three ends of `findLive` holds of the operation.
  pub live_cases :
      (P : Outcome A × Database → Type 0)
      → (lookup k db.entries ≡ none → P (body none db))
      → ((e : Entry)
          → lookup k db.entries ≡ some e
          → eqb_ℤ e.expires_at_ms no_expiry ≡ false
          → leb_ℤ e.expires_at_ms (db.clock db.clock_reads) ≡ true
          → P (body none (purged k (db.clock_reads + 1) db)))
      → ((e : Entry) (n : ℕ)
          → lookup k db.entries ≡ some e
          → settle (db.clock db.clock_reads) (some (e.value, e.expires_at_ms))
            ≡ some (e.value, e.expires_at_ms)
          → P (body (some e) (read_at n db)))
      → P ((find_live k >>= body) db)
  unfolding find_live
  live_cases P missing late live = elim (Option-cases (lookup k db.entries)) [
    | inl e ↦ rw (e, find_live) (missing e)
    | inr (e, found) ↦
        rw (found, find_live)
          (elim (Bool-cases (eqb_ℤ e.expires_at_ms no_expiry)) [
            | inl never ↦ rw never (live e db.clock_reads found (rw never))
            | inr timed ↦
                rw timed (elim (Bool-cases (leb_ℤ e.expires_at_ms (db.clock db.clock_reads))) [
                  | inl due ↦ rw due (late e found timed due)
                  | inr not_due ↦
                      rw not_due (live e (db.clock_reads + 1) found (rw (timed, not_due)))
                ])
          ])
  ]

  -- The same for what the invariant alone gives.
  pub live_induction :
      (P : Outcome A × Database → Type 0)
      → IsWellFormed db
      → ((db' : Database) → IsWellFormed db' → lookup k db'.entries ≡ none → P (body none db'))
      → ((e : Entry) (db' : Database)
          → IsWellFormed db'
          → lookup k db'.entries ≡ some e
          → P (body (some e) db'))
      → P ((find_live k >>= body) db)
  live_induction P w missing live =
      live_cases P (missing db w)
        (λ e found _ _.
          missing _ (erase-IsWellFormed k (read_at (db.clock_reads + 1) db) {e = e} found w)
            (lookup-erase_self k (read_at (db.clock_reads + 1) db)))
        (λ e n found _. live e (read_at n db) w found)
