-- ===== src/Database/Invariant/Values.antt =====
-- Changes of a node's value, each with its accounting, keep the invariant.
use flash_kv.Common.{
  ℕ, ◌+◌, ◌%◌, ◌≡◌, refl, subst, some, arith, Bytes, ===_refl, lookup, modify, lookup-modify,
  modify-modify, word, add64, sub64,
}
use flash_kv.Database.State.{
  Database, Entry, Value, add_memory, remove_memory, store_value, payload_memory,
}
use flash_kv.Database.Invariant.{IsWellFormed, IsProper}
use flash_kv.Database.Invariant.Tables.{modify-IsLinked, modify-IsIndexed}
use flash_kv.Database.Invariant.Contents.{modify-AreProper}
use flash_kv.Database.Invariant.Memory.{reprice-IsMetered}

-- A well-formed state in which the node of `k` holds `v`.
pub record Holds (k : Bytes) (v : Value) (db : Database) : Type 0 where
  pub well_formed : IsWellFormed db
  pub entry : Entry
  pub found : lookup k db.entries ≡ some entry
  pub value : entry.value ≡ v

-- Both counters change by `F`.
abbrev repriced : Bytes → Value → (ℕ → ℕ) → Database → Database
repriced k v F db = record db {
  entries = modify k (λ x. record x { value = v; memory = F x.memory }) db.entries;
  memory_used = F db.memory_used;
}

module _ (k : Bytes) (old v : Value) where
  repriced-Holds :
      (F : ℕ → ℕ) {db : Database}
      → ((rest : ℕ) → F ((rest + payload_memory old) % word) ≡ (rest + payload_memory v) % word)
      → IsProper v
      → Holds k old db
      → Holds k v (repriced k v F db)
  repriced-Holds F {db} tracks new h = record {
    well_formed = record {
      linked = modify-IsLinked k _ h.well_formed.linked;
      indexed = modify-IsIndexed k _ (λ e. refl) (λ e n f. f) h.well_formed.indexed;
      metered =
          reprice-IsMetered k v F h.well_formed.linked.distinct h.found h.well_formed.metered
            (λ rest. rw h.value (tracks rest));
      proper = modify-AreProper k h.well_formed.proper _ (λ e _. new);
    };
    entry = record h.entry { value = v; memory = F h.entry.memory };
    found = ground (
      arith,
      h.found,
      lookup-modify k k (λ x. record x { value = v; memory = F x.memory }) db.entries,
      ===_refl k,
    );
    value = refl;
  }

  -- The payload grows by `b`.
  pub grow-Holds :
      (b : ℕ) {db : Database}
      → payload_memory v ≡ payload_memory old + b
      → IsProper v
      → Holds k old db
      → Holds k v (add_memory k b (store_value k v db))
  unfolding add_memory store_value
  grow-Holds b {db} grown new h =
      rw modify-modify (repriced-Holds (λ m. add64 m b) (λ rest. unfold add64 in omega arith) new h)

  -- The payload shrinks by `b`.
  pub shrink-Holds :
      (b : ℕ) {db : Database}
      → payload_memory v + b ≡ payload_memory old
      → IsProper v
      → Holds k old db
      → Holds k v (remove_memory k b (store_value k v db))
  unfolding remove_memory store_value
  shrink-Holds b {db} shrunk new h =
      rw modify-modify (repriced-Holds (λ m. sub64 m b) (λ rest. unfold sub64 in omega arith) new h)

  -- The same, where the counters change first.
  pub discharge-Holds :
      (b : ℕ) {db : Database}
      → payload_memory v + b ≡ payload_memory old
      → IsProper v
      → Holds k old db
      → Holds k v (store_value k v (remove_memory k b db))
  unfolding remove_memory store_value
  discharge-Holds b {db} shrunk new h =
      rw modify-modify (repriced-Holds (λ m. sub64 m b) (λ rest. unfold sub64 in omega arith) new h)

  -- The old payload is taken off and the new one put on.
  pub swap-Holds :
      (a b : ℕ) {db : Database}
      → payload_memory v + a ≡ payload_memory old + b
      → IsProper v
      → Holds k old db
      → Holds k v (add_memory k b (store_value k v (remove_memory k a db)))
  unfolding add_memory remove_memory store_value
  swap-Holds a b {db} swapped new h =
      rw (modify-modify, modify-modify)
        (repriced-Holds (λ m. add64 (sub64 m a) b) (λ rest. unfold add64 sub64 in omega arith) new
          h)

-- The value of a node is a proper container.
pub Holds-IsProper : {k : Bytes} {v : Value} {db : Database} → Holds k v db → IsProper v
Holds-IsProper {k} h = subst IsProper h.value (h.well_formed.proper.all k h.entry h.found)
