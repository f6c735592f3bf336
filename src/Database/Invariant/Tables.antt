-- ===== src/Database/Invariant/Tables.antt =====
-- How the recency list and the index of the volatile keys follow each change of the hash table.
use flash_kv.Common.{
  ◌≡◌, none, some, List, ◌∷◌, arith, sym, ◌∙◌, ◌⊎◌, Bytes, ===_iff, Option-cases, inl, inr, Assoc,
  lookup, without, modify, remove, contains, lookup-without, lookup-modify, Distinct-without,
  Distinct-modify, contains-remove, remove-Unique,
}
use flash_kv.Database.State.{Entry, slot, no_expiry}
use flash_kv.Database.Invariant.{IsLinked, IsIndexed}

pub modify-IsLinked :
    (k : Bytes) (f : Entry → Entry) {entries : Assoc Entry} {lru : List Bytes}
    → IsLinked entries lru
    → IsLinked (modify k f entries) lru
modify-IsLinked k f {entries} {lru} h = record {
  distinct = Distinct-modify k f entries h.distinct;
  unique = h.unique;
  listed = λ j. ground (arith, h.listed j, lookup-modify k j f entries);
}

pub touch-IsLinked :
    (k : Bytes) {entries : Assoc Entry} {lru : List Bytes} {e : Entry}
    → lookup k entries ≡ some e
    → IsLinked entries lru
    → IsLinked entries (k ∷ remove k lru)
unfolding contains
touch-IsLinked k {entries} {lru} found h = record {
  distinct = h.distinct;
  unique = (ground (arith, contains-remove k k lru, ===_iff k k), remove-Unique k lru h.unique);
  listed = λ j. ground (arith, h.listed j, contains-remove k j lru, ===_iff k j);
}

pub create-IsLinked :
    (k : Bytes) (e : Entry) {entries : Assoc Entry} {lru : List Bytes}
    → lookup k entries ≡ none
    → IsLinked entries lru
    → IsLinked ((k, e) ∷ entries) (k ∷ lru)
unfolding contains lookup
create-IsLinked k e {entries} {lru} missing h = record {
  distinct = (missing, h.distinct);
  unique = (ground (arith, h.listed k), h.unique);
  listed = λ j. ground (arith, h.listed j);
}

pub erase-IsLinked :
    (k : Bytes) {entries : Assoc Entry} {lru : List Bytes}
    → IsLinked entries lru
    → IsLinked (without k entries) (remove k lru)
erase-IsLinked k {entries} {lru} h = record {
  distinct = Distinct-without k entries h.distinct;
  unique = remove-Unique k lru h.unique;
  listed = λ j. ground (arith, h.listed j, contains-remove k j lru, lookup-without k j entries);
}

-- An edit that keeps what ties an entry to the vector.
pub modify-IsIndexed :
    (k : Bytes) (f : Entry → Entry) {entries : Assoc Entry} {volatile : List Bytes}
    → ((e : Entry) → (f e).volatile_index ≡ e.volatile_index)
    → ((e : Entry)
        → e.volatile_index ≡ none
        → e.expires_at_ms ≡ no_expiry
        → (f e).expires_at_ms ≡ no_expiry)
    → IsIndexed entries volatile
    → IsIndexed (modify k f entries) volatile
modify-IsIndexed k f {entries} {volatile} same later h = record {
  sound = λ j i s. h.sound j i (sym (slot_same j) ∙ s);
  complete = λ j i s. slot_same j ∙ h.complete j i s;
  unmarked = λ j x s free. unmarked_same j x s free (Option-cases (lookup j entries));
}
  where
    slot_same : (j : Bytes) → slot j (modify k f entries) ≡ slot j entries
    slot_same j = elim (Option-cases (lookup j entries)) [
      | inl e ↦ ground (arith, lookup-modify k j f entries)
      | inr (x, e) ↦ ground (arith, lookup-modify k j f entries, same x)
    ]

    unmarked_same :
        (j : Bytes) (x : Entry)
        → lookup j (modify k f entries) ≡ some x
        → x.volatile_index ≡ none
        → (lookup j entries ≡ none) ⊎ ((e : Entry) × (lookup j entries ≡ some e))
        → x.expires_at_ms ≡ no_expiry
    unmarked_same j x s free (inl e) = ground (arith, lookup-modify k j f entries)
    unmarked_same j x s free (inr (y, e)) =
        ground (arith, lookup-modify k j f entries, same y, later y, h.unmarked j y)

pub create-IsIndexed :
    (k : Bytes) (e : Entry) {entries : Assoc Entry} {volatile : List Bytes}
    → lookup k entries ≡ none
    → e.volatile_index ≡ none
    → e.expires_at_ms ≡ no_expiry
    → IsIndexed entries volatile
    → IsIndexed ((k, e) ∷ entries) volatile
unfolding lookup
create-IsIndexed k e {entries} {volatile} missing fresh never h = record {
  sound = λ j i s. ground (arith, h.sound j i, ===_iff k j);
  complete = λ j i s. ground (arith, h.complete j i, ===_iff k j);
  unmarked = λ j x s. ground (arith, h.unmarked j x, ===_iff k j);
}
