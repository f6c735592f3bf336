-- ===== src/Database/Invariant.antt =====
-- What ties the four parts of the state of `Database` together: the hash table, the recency list,
-- the vector of keys with a deadline, and the memory counter.
pub mod Tables
pub mod Marks
pub mod Memory
pub mod Contents
pub mod Nodes
pub mod Values
pub mod Fields
use flash_kv.Common.{
  ℕ, ◌+◌, ◌%◌, ◌≡◌, none, some, List, [], ◌∷◌, Bytes, length, get_elem?, Assoc, lookup, Distinct,
  Unique, contains, is_some, word,
}
use flash_kv.Database.State.{
  Database, Entry, Value, string, list, hash, members, entry_overhead, payload_memory, no_expiry,
  slot,
}

-- The bytes that an entry is charged for.
abbrev pub entry_cost : Bytes → Entry → ℕ
entry_cost k e = entry_overhead + length k + payload_memory e.value

unfoldable pub total : Assoc Entry → ℕ
total [] = 0
total ((k, e) ∷ l) = entry_cost k e + total l

-- One node for each key, and every node once in the recency list.
pub record IsLinked (entries : Assoc Entry) (lru : List Bytes) : Type 0 where
  pub distinct : Distinct entries
  pub unique : Unique lru
  pub listed : (k : Bytes) → contains k lru ≡ is_some (lookup k entries)

-- `volatileIndex` and the vector name each other, and a node without an index has no deadline.
pub record IsIndexed (entries : Assoc Entry) (volatile : List Bytes) : Type 0 where
  pub sound : (k : Bytes) (i : ℕ) → slot k entries ≡ some i → get_elem? volatile i ≡ some k
  pub complete : (k : Bytes) (i : ℕ) → get_elem? volatile i ≡ some k → slot k entries ≡ some i
  pub unmarked :
      (k : Bytes) (e : Entry)
      → lookup k entries ≡ some e
      → e.volatile_index ≡ none
      → e.expires_at_ms ≡ no_expiry

-- The two levels of memory accounting are exact, modulo the width of std::size_t.
pub record IsMetered (entries : Assoc Entry) (used : ℕ) : Type 0 where
  pub each : (k : Bytes) (e : Entry) → lookup k entries ≡ some e → e.memory ≡ entry_cost k e % word
  pub sum : used ≡ total entries % word

-- What the C++ containers guarantee of themselves: a map has no field twice, a set no member.
abbrev pub IsProper : Value → Type 0
IsProper (string text) = Unit {0}
IsProper (list l) = Unit {0}
IsProper (hash h) = Distinct h
IsProper (members s) = Unique s

pub record AreProper (entries : Assoc Entry) : Type 0 where
  pub all : (k : Bytes) (e : Entry) → lookup k entries ≡ some e → IsProper e.value

pub record Consistent (entries : Assoc Entry) (lru volatile : List Bytes) (used : ℕ) : Type 0 where
  pub linked : IsLinked entries lru
  pub indexed : IsIndexed entries volatile
  pub metered : IsMetered entries used
  pub proper : AreProper entries

-- The invariant of `Database`.
abbrev pub IsWellFormed : Database → Type 0
IsWellFormed db = Consistent db.entries db.lru db.volatile_keys db.memory_used
