-- ===== src/Database/State.antt =====
-- include/database.hpp and the internal helpers of src/database.cpp: the values, the entries, the
-- state of `Database`, and the operations on a node.
-- A `Node*` is the key of its node: `std::unordered_map` keeps one node for each key, and its
-- nodes do not move. So `lru` and `volatile_keys` are lists of keys. `lruPosition` is the place of
-- the key in `lru`.
use flash_kv.Common.{
  ℕ, ◌+◌, Option, none, some, List, [], ◌∷◌, ◌++◌, Bytes, if◌then◌else◌, length, set, back?,
  drop_last, Assoc, lookup, without, modify, remove, add64, sub64, ◌%◌, word,
}
use flash_kv.Common.Int.{ℤ, negsuc, leb_ℤ, eqb_ℤ}
use flash_kv.Common.Exec.{Exec, wrong_type, ok, pure, raise}

pub data Value : Type 0 where
  string : Bytes → Value
  list : List Bytes → Value
  hash : Assoc Bytes → Value
  members : List Bytes → Value

pub data ValueType : Type 0 where
  string_type list_type hash_type set_type : ValueType

pub data ListSide : Type 0 where
  left right : ListSide

pub data EvictionPolicy : Type 0 where
  no_eviction all_keys_lru : EvictionPolicy

pub record DatabaseStats : Type 0 where
  pub expired_keys : ℕ
  pub evicted_keys : ℕ
  pub keyspace_hits : ℕ
  pub keyspace_misses : ℕ

-- `none` in `volatile_index` is NOT_VOLATILE.
pub record Entry : Type 0 where
  pub value : Value
  pub expires_at_ms : ℤ
  pub memory : ℕ
  pub volatile_index : Option ℕ

-- `clock i` is what the i-th call of the clock function returns, `draw i n` what the i-th draw of
-- the random engine from 0, …, n - 1 gives; `clock_reads` and `draws` count the calls.
pub record Database : Type 0 where
  pub entries : Assoc Entry
  pub lru : List Bytes
  pub volatile_keys : List Bytes
  pub memory_used : ℕ
  pub memory_limit : ℕ
  pub policy : EvictionPolicy
  pub statistics : DatabaseStats
  pub clock : ℕ → ℤ
  pub clock_reads : ℕ
  pub draw : ℕ → ℕ → ℕ
  pub draws : ℕ

abbrev pub Db : Type 0 → Type 0
Db A = Exec Database A

abbrev pub no_expiry : ℤ
no_expiry = negsuc 0

-- ENTRY_OVERHEAD and ELEMENT_OVERHEAD.
abbrev pub entry_overhead : ℕ
entry_overhead = 96

abbrev pub element_overhead : ℕ
element_overhead = 32

unfoldable pub element_cost : Bytes → ℕ
element_cost v = length v + element_overhead

unfoldable pub list_cost : List Bytes → ℕ
list_cost [] = 0
list_cost (v ∷ l) = element_cost v + list_cost l

unfoldable pub hash_cost : Assoc Bytes → ℕ
hash_cost [] = 0
hash_cost ((field, v) ∷ h) = element_cost field + length v + hash_cost h

unfoldable pub payload_memory : Value → ℕ
payload_memory (string text) = length text
payload_memory (list l) = list_cost l
payload_memory (hash h) = hash_cost h
payload_memory (members m) = list_cost m

unfoldable pub value_type : Value → ValueType
value_type (string _) = string_type
value_type (list _) = list_type
value_type (hash _) = hash_type
value_type (members _) = set_type

abbrev pub no_stats : DatabaseStats
no_stats = record { expired_keys = 0; evicted_keys = 0; keyspace_hits = 0; keyspace_misses = 0 }

-- The constructor; the clock and the random engine are parameters.
unfoldable pub empty_database : (ℕ → ℤ) → (ℕ → ℕ → ℕ) → Database
empty_database clock draw = record {
  entries = [];
  lru = [];
  volatile_keys = [];
  memory_used = 0;
  memory_limit = 0;
  policy = no_eviction;
  statistics = no_stats;
  clock = clock;
  clock_reads = 0;
  draw = draw;
  draws = 0;
}

unfoldable pub now : Database → ℤ × Database
now db = (db.clock db.clock_reads, record db { clock_reads = db.clock_reads + 1 })

-- node->second = f(node->second).
unfoldable pub edit : Bytes → (Entry → Entry) → Database → Database
edit key f db = record db { entries = modify key f db.entries }

-- `volatileKeys[index] = last; last->second.volatileIndex = index; volatileKeys.pop_back();`
unfoldable pub swap_and_pop : ℕ → Database → Database
swap_and_pop index db = elim (back? db.volatile_keys) [
  | none ↦ db
  | some last ↦ record db {
    entries = modify last (λ e. record e { volatile_index = some index }) db.entries;
    volatile_keys = drop_last (set db.volatile_keys index last);
  }
]

abbrev pub unmark : Entry → Entry
unmark e = record e { expires_at_ms = no_expiry; volatile_index = none }

abbrev pub leave_sample : Option ℕ → Database → Database
leave_sample none db = db
leave_sample (some index) db = swap_and_pop index db

abbrev pub index_in : Option Entry → Option ℕ
index_in none = none
index_in (some e) = e.volatile_index

-- `node->second.volatileIndex`.
abbrev pub slot : Bytes → Assoc Entry → Option ℕ
slot key entries = index_in (lookup key entries)

unfoldable pub clear_expiry : Bytes → Database → Database
unfolding swap_and_pop edit
clear_expiry key db = edit key unmark (leave_sample (slot key db.entries) db)

abbrev pub enter_sample : Bytes → Option ℕ → Database → Database
enter_sample key none db = record db {
  entries =
      modify key (λ e. record e { volatile_index = some (length db.volatile_keys) }) db.entries;
  volatile_keys = db.volatile_keys ++ key ∷ [];
}
enter_sample key (some _) db = db

unfoldable pub set_expiry : Bytes → ℤ → Database → Database
unfolding edit
set_expiry key unix_time_ms db =
    edit key (λ e. record e { expires_at_ms = unix_time_ms })
      (enter_sample key (slot key db.entries) db)

abbrev pub memory_in : Option Entry → ℕ
memory_in none = 0
memory_in (some e) = e.memory

-- `node->second.memory`.
abbrev pub memory_of : Bytes → Assoc Entry → ℕ
memory_of key entries = memory_in (lookup key entries)

unfoldable pub erase : Bytes → Database → Database
unfolding clear_expiry
erase key db =
    let cleared = clear_expiry key db in
    record cleared {
      entries = without key cleared.entries;
      lru = remove key cleared.lru;
      memory_used = sub64 cleared.memory_used (memory_of key cleared.entries);
    }

unfoldable pub touch : Bytes → Database → Database
touch key db = record db { lru = key ∷ remove key db.lru }

unfoldable pub new_entry : Bytes → Value → Entry
new_entry key value = record {
  value = value;
  expires_at_ms = no_expiry;
  memory = (entry_overhead + length key + payload_memory value) % word;
  volatile_index = none;
}

-- Behind `data.try_emplace(key)`: an entry that is there keeps its deadline and its mark, and gets
-- the value and the charge of the new one.
abbrev pub overwritten : Entry → Option Entry → Entry
overwritten fresh none = fresh
overwritten fresh (some old) = record old { value = fresh.value; memory = fresh.memory }

abbrev pub emplaced_entry : Bytes → Entry → Option Entry → Assoc Entry → Assoc Entry
emplaced_entry key fresh none entries = (key, fresh) ∷ entries
emplaced_entry key fresh (some old) entries = modify key (λ e. overwritten fresh (some e)) entries

unfoldable pub create : Bytes → Value → Database → Database
unfolding new_entry
create key value db = record db {
  entries = emplaced_entry key (new_entry key value) (lookup key db.entries) db.entries;
  lru = key ∷ db.lru;
  memory_used = add64 db.memory_used (new_entry key value).memory;
}

-- `create` with the node that it returns.
abbrev pub create_node : Bytes → Value → Db Entry
create_node key value db =
    (ok (overwritten (new_entry key value) (lookup key db.entries)), create key value db)

unfoldable pub add_memory : Bytes → ℕ → Database → Database
unfolding edit
add_memory key bytes db =
    let grown = edit key (λ e. record e { memory = add64 e.memory bytes }) db in
    record grown { memory_used = add64 db.memory_used bytes }

unfoldable pub remove_memory : Bytes → ℕ → Database → Database
unfolding edit
remove_memory key bytes db =
    let shrunk = edit key (λ e. record e { memory = sub64 e.memory bytes }) db in
    record shrunk { memory_used = sub64 db.memory_used bytes }

-- Assignment through the reference that `valueAs` returned.
unfoldable pub store_value : Bytes → Value → Database → Database
unfolding edit
store_value key v = edit key (λ e. record e { value = v })

-- `valueAs<T>`, for each T.
unfoldable pub as_string : Entry → Db Bytes
as_string e = elim e.value [ string text ↦ pure text | _ ↦ raise wrong_type ]

unfoldable pub as_list : Entry → Db (List Bytes)
as_list e = elim e.value [ list l ↦ pure l | _ ↦ raise wrong_type ]

unfoldable pub as_hash : Entry → Db (Assoc Bytes)
as_hash e = elim e.value [ hash h ↦ pure h | _ ↦ raise wrong_type ]

unfoldable pub as_set : Entry → Db (List Bytes)
as_set e = elim e.value [ members m ↦ pure m | _ ↦ raise wrong_type ]

abbrev pub count_expired : ℕ → Database → Database
count_expired n db = record db {
  statistics = record db.statistics { expired_keys = db.statistics.expired_keys + n };
}

abbrev pub count_hit : Database → Database
count_hit db = record db {
  statistics = record db.statistics { keyspace_hits = db.statistics.keyspace_hits + 1 };
}

abbrev pub count_miss : Database → Database
count_miss db = record db {
  statistics = record db.statistics { keyspace_misses = db.statistics.keyspace_misses + 1 };
}

abbrev pub count_evicted : Database → Database
count_evicted db = record db {
  statistics = record db.statistics { evicted_keys = db.statistics.evicted_keys + 1 };
}

-- The test of the lazy expiration. The clock is read only for an entry with a deadline.
unfoldable pub find_live : Bytes → Db (Option Entry)
unfolding now erase
find_live key db = elim (lookup key db.entries) [
  | none ↦ (ok none, db)
  | some e ↦
      let (current, read) = now db in
      if eqb_ℤ e.expires_at_ms no_expiry
      then (ok (some e), db)
      else if leb_ℤ e.expires_at_ms current
      then (ok none, count_expired 1 (erase key read))
      else (ok (some e), read)
]
