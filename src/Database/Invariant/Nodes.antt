-- ===== src/Database/Invariant/Nodes.antt =====
-- The internal helpers of `Database` keep the invariant.
use flash_kv.Common.{
  ℕ, ◌≡◌, refl, ap, ◌∙◌, inl, inr, Option, none, some, arith, Bytes, Option-cases, Bool-cases,
  ◌===◌, ===_iff, back?, back?-ne-none, lookup, lookup-modify, add64,
}
use flash_kv.Common.Int.{ℤ, eqb_ℤ, leb_ℤ}
use flash_kv.Database.State.{
  Database, Entry, Value, slot, unmark, index_in, swap_and_pop, leave_sample, clear_expiry,
  set_expiry, erase, touch, create, new_entry, find_live, now, no_expiry,
}
use flash_kv.Database.Invariant.{IsWellFormed, IsProper, total}
use flash_kv.Database.Invariant.Tables.{
  modify-IsLinked, touch-IsLinked, create-IsLinked, erase-IsLinked, create-IsIndexed,
}
use flash_kv.Database.Invariant.Marks.{
  reindex, redate, swap_and_pop-IsIndexed, enter-IsIndexed, redate-IsIndexed, without-IsIndexed,
  unmark-IsIndexed,
}
use flash_kv.Database.Invariant.Contents.{
  modify-AreProper_same, without-AreProper, create-AreProper,
}
use flash_kv.Database.Invariant.Memory.{modify-IsMetered, without-IsMetered}

pub touch-IsWellFormed :
    (k : Bytes) (db : Database) {e : Entry}
    → lookup k db.entries ≡ some e
    → IsWellFormed db
    → IsWellFormed (touch k db)
unfolding touch
touch-IsWellFormed k db found w = record {
  linked = touch-IsLinked k found w.linked;
  indexed = w.indexed;
  metered = w.metered;
  proper = w.proper;
}

pub create-IsWellFormed :
    (k : Bytes) (v : Value) (db : Database)
    → lookup k db.entries ≡ none
    → IsProper v
    → IsWellFormed db
    → IsWellFormed (create k v db)
unfolding create new_entry
create-IsWellFormed k v db missing new w = rw missing (record {
  linked = create-IsLinked k (new_entry k v) missing w.linked;
  indexed = create-IsIndexed k (new_entry k v) missing refl refl w.indexed;
  metered = record {
    each = unfold lookup in λ j x s. ground (arith, ===_iff k j, w.metered.each j x);
    sum = unfold total add64 in ground (arith, w.metered.sum);
  };
  proper = create-AreProper k w.proper (new_entry k v) new;
})

pub clear_expiry-IsWellFormed :
    (k : Bytes) (db : Database) → IsWellFormed db → IsWellFormed (clear_expiry k db)
unfolding clear_expiry
clear_expiry-IsWellFormed k db w = elim (Option-cases (slot k db.entries)) [
  | inl free ↦ rw free (record {
    linked = modify-IsLinked k unmark w.linked;
    indexed = unmark-IsIndexed w.indexed k free;
    metered = modify-IsMetered k unmark (λ e. refl) (λ e. refl) w.metered;
    proper = modify-AreProper_same k w.proper unmark (λ e. refl);
  })
  | inr (i, held) ↦ elim (Option-cases (back? db.volatile_keys)) [
    | inl nothing ↦ absurd (back?-ne-none db.volatile_keys i (w.indexed.sound k i held) nothing)
    | inr (last, at_end) ↦
        rw (held, at_end, swap_and_pop)
          (record {
            linked = modify-IsLinked k unmark (modify-IsLinked last (reindex i) w.linked);
            indexed = swap_and_pop-IsIndexed w.indexed k last i held at_end;
            metered =
                modify-IsMetered k unmark (λ e. refl) (λ e. refl)
                  (modify-IsMetered last (reindex i) (λ e. refl) (λ e. refl) w.metered);
            proper =
                modify-AreProper_same k
                  (modify-AreProper_same last w.proper (reindex i) (λ e. refl)) unmark (λ e. refl);
          })
  ]
]

-- Leaving the vector moves marks only: every node keeps its value and its charge.
leave_sample-memory_of :
    (o : Option ℕ) (j : Bytes) (db : Database) {e : Entry}
    → lookup j db.entries ≡ some e
    → (x : Entry) × (lookup j (leave_sample o db).entries ≡ some x)
      × (x.value ≡ e.value)
      × (x.memory ≡ e.memory)
unfolding swap_and_pop
leave_sample-memory_of none j db {e} found = (e, found, refl, refl)
leave_sample-memory_of (some i) j db {e} found = elim (Option-cases (back? db.volatile_keys)) [
  | inl nothing ↦ rw (nothing, swap_and_pop) (e, found, refl, refl)
  | inr (last, at_end) ↦
      rw (at_end, swap_and_pop)
        (elim (Bool-cases (last === j)) [
          | inl same ↦
              (reindex i e, ground (arith, lookup-modify last j (reindex i) db.entries), refl, refl)
          | inr other ↦ (e, ground (arith, lookup-modify last j (reindex i) db.entries), refl, refl)
        ])
]

-- The node that `clearExpiry` leaves: its value and its charge stay, its mark is gone.
pub lookup-clear_expiry_self :
    (k : Bytes) (db : Database) {e : Entry}
    → lookup k db.entries ≡ some e
    → (x : Entry) × (lookup k (clear_expiry k db).entries ≡ some x)
      × (x.volatile_index ≡ none)
      × (x.value ≡ e.value)
      × (x.memory ≡ e.memory)
unfolding clear_expiry
lookup-clear_expiry_self k db {e} found =
    let left = leave_sample (slot k db.entries) db in
    let (x, here, v, m) = leave_sample-memory_of (slot k db.entries) k db {e = e} found in
    (unmark x, ground (arith, lookup-modify k k unmark left.entries, ===_iff k k), refl, v, m)

pub erase-IsWellFormed :
    (k : Bytes) (db : Database) {e : Entry}
    → lookup k db.entries ≡ some e
    → IsWellFormed db
    → IsWellFormed (erase k db)
unfolding erase
erase-IsWellFormed k db {e} found w =
    let cleared = clear_expiry-IsWellFormed k db w in
    let (x, here, free, _, _) = lookup-clear_expiry_self k db {e = e} found in
    record {
      linked = erase-IsLinked k cleared.linked;
      indexed = without-IsIndexed cleared.indexed k (ap index_in here ∙ free);
      metered = rw here (without-IsMetered k cleared.linked.distinct here cleared.metered);
      proper = without-AreProper k cleared.proper;
    }

pub set_expiry-IsWellFormed :
    (k : Bytes) (t : ℤ) (db : Database) {e : Entry}
    → lookup k db.entries ≡ some e
    → IsWellFormed db
    → IsWellFormed (set_expiry k t db)
unfolding set_expiry
set_expiry-IsWellFormed k t db found w = elim (Option-cases (slot k db.entries)) [
  | inl free ↦ rw free (record {
    linked = modify-IsLinked k (redate t) (modify-IsLinked k (reindex _) w.linked);
    indexed = enter-IsIndexed w.indexed k t found free;
    metered =
        modify-IsMetered k (redate t) (λ e. refl) (λ e. refl)
          (modify-IsMetered k (reindex _) (λ e. refl) (λ e. refl) w.metered);
    proper =
        modify-AreProper_same k (modify-AreProper_same k w.proper (reindex _) (λ e. refl))
          (redate t) (λ e. refl);
  })
  | inr (i, held) ↦ rw held (record {
    linked = modify-IsLinked k (redate t) w.linked;
    indexed = redate-IsIndexed w.indexed k t found held;
    metered = modify-IsMetered k (redate t) (λ e. refl) (λ e. refl) w.metered;
    proper = modify-AreProper_same k w.proper (redate t) (λ e. refl);
  })
]

pub find_live-IsWellFormed :
    (k : Bytes) (db : Database) → IsWellFormed db → IsWellFormed (find_live k db).1
unfolding find_live
find_live-IsWellFormed k db w = elim (Option-cases (lookup k db.entries)) [
  | inl missing ↦ rw (missing, find_live) w
  | inr (e, found) ↦
      rw (found, find_live)
        (elim (Bool-cases (eqb_ℤ e.expires_at_ms no_expiry)) [
          | inl forever ↦ rw forever w
          | inr timed ↦
              rw timed (elim (Bool-cases (leb_ℤ e.expires_at_ms (db.clock db.clock_reads))) [
                | inl late ↦ rw late (erase-IsWellFormed k (now db).1 {e = e} found w)
                | inr live ↦ rw live w
              ])
        ])
]
