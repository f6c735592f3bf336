-- ===== src/Database/Invariant/Fields.antt =====
-- What the removal of a node does to the other fields of the state.
use flash_kv.Common.{
  ℕ, ◌+◌, ◌≡◌, refl, ap, inl, inr, Option, none, some, arith, Bytes, Option-cases, length, set,
  back?, length-set, length-drop_last, get_elem?-lt, back?-ne-none, lookup, remove, length-without,
  length-modify,
}
use flash_kv.Common.Int.{ℤ}
use flash_kv.Database.State.{
  Database, EvictionPolicy, Entry, slot, unmark, swap_and_pop, leave_sample, clear_expiry, erase,
}
use flash_kv.Database.Invariant.{IsWellFormed}
use flash_kv.Database.Invariant.Marks.{reindex}
use flash_kv.Database.Invariant.Nodes.{clear_expiry-IsWellFormed, lookup-clear_expiry_self}

-- What no helper writes.
pub record Settings : Type 0 where
  pub limit : ℕ
  pub policy : EvictionPolicy
  pub clock : ℕ → ℤ
  pub clock_reads : ℕ
  pub draw : ℕ → ℕ → ℕ
  pub draws : ℕ

abbrev pub settings : Database → Settings
settings db = record {
  limit = db.memory_limit;
  policy = db.policy;
  clock = db.clock;
  clock_reads = db.clock_reads;
  draw = db.draw;
  draws = db.draws;
}

-- Leaving the vector writes the entries and the vector alone.
leave_sample_frame :
    (o : Option ℕ) (db : Database)
    → (settings (leave_sample o db) ≡ settings db)
      × ((leave_sample o db).lru ≡ db.lru)
      × ((leave_sample o db).memory_used ≡ db.memory_used)
      × ((leave_sample o db).statistics ≡ db.statistics)
      × (length (leave_sample o db).entries ≡ length db.entries)
unfolding swap_and_pop
leave_sample_frame none db = (refl, refl, refl, refl, refl)
leave_sample_frame (some i) db = elim (Option-cases (back? db.volatile_keys)) [
  | inl nothing ↦ rw (nothing, swap_and_pop) (refl, refl, refl, refl, refl)
  | inr (last, at_end) ↦
      rw (at_end, swap_and_pop) (refl, refl, refl, refl, length-modify last (reindex i) db.entries)
]

pub settings-erase : (k : Bytes) (db : Database) → settings (erase k db) ≡ settings db
unfolding erase
settings-erase k db = (leave_sample_frame (slot k db.entries) db).0

pub lru-erase : (k : Bytes) (db : Database) → (erase k db).lru ≡ remove k db.lru
unfolding erase
lru-erase k db = ap (remove k) (leave_sample_frame (slot k db.entries) db).1

pub statistics-erase : (k : Bytes) (db : Database) → (erase k db).statistics ≡ db.statistics
unfolding erase
statistics-erase k db = (leave_sample_frame (slot k db.entries) db).3

-- A marked key takes one place of the vector along.
pub length-volatile_keys-erase :
    (k : Bytes) (db : Database) {i : ℕ}
    → IsWellFormed db
    → slot k db.entries ≡ some i
    → length (erase k db).volatile_keys + 1 ≡ length db.volatile_keys
unfolding erase swap_and_pop
length-volatile_keys-erase k db {i} w held = elim (Option-cases (back? db.volatile_keys)) [
  | inl nothing ↦ absurd (back?-ne-none db.volatile_keys i (w.indexed.sound k i held) nothing)
  | inr (last, at_end) ↦
      rw (held, at_end, swap_and_pop)
        (omega (
          arith,
          length-drop_last (set db.volatile_keys i last),
          length-set db.volatile_keys i last,
          get_elem?-lt db.volatile_keys i {v = k} (w.indexed.sound k i held),
        ))
]

pub length-entries-erase :
    (k : Bytes) (db : Database) {e : Entry}
    → IsWellFormed db
    → lookup k db.entries ≡ some e
    → length (erase k db).entries + 1 ≡ length db.entries
unfolding erase
length-entries-erase k db {e} w found =
    let cleared = clear_expiry-IsWellFormed k db w in
    let (x, here, _, _, _) = lookup-clear_expiry_self k db {e = e} found in
    let entries = (clear_expiry k db).entries in
    ground (
      arith,
      length-without k entries cleared.linked.distinct,
      here,
      length-modify k unmark (leave_sample (slot k db.entries) db).entries,
      (leave_sample_frame (slot k db.entries) db).4,
    )
