-- ===== src/Database/Reach.antt =====
-- Every sequence of calls of `Database`, from an empty one.
use flash_kv.Common.{ℕ, Bool, List, [], ◌∷◌, Bytes, Assoc}
use flash_kv.Common.Int.{ℤ}
use flash_kv.Database.State.{Database, ListSide, EvictionPolicy, empty_database}
use flash_kv.Database.Strings.{del, exists, type_of, set, get, increment_by, append, string_length}
use flash_kv.Database.Expiry.{
  expire_at_ms, expire, persist, ttl_ms, ttl, active_expire_cycle, set_max_memory,
  set_eviction_policy, evict_if_needed, inspect,
}
use flash_kv.Database.Keyspace.{keys, clear}
use flash_kv.Database.Lists.{list_push, list_pop, list_range, list_index, list_length}
use flash_kv.Database.Hashes.{
  hash_set, hash_get, hash_delete, hash_get_all, hash_length, hash_exists,
}
use flash_kv.Database.Sets.{set_add, set_remove, set_members, set_is_member, set_cardinality}
use flash_kv.Database.Invariant.{IsWellFormed}
use flash_kv.Database.Preserves.Strings.{
  del-IsWellFormed, exists-IsWellFormed, type_of-IsWellFormed, set-IsWellFormed, get-IsWellFormed,
  increment_by-IsWellFormed, append-IsWellFormed, string_length-IsWellFormed,
}
use flash_kv.Database.Preserves.Expiry.{
  expire_at_ms-IsWellFormed, expire-IsWellFormed, persist-IsWellFormed, ttl_ms-IsWellFormed,
  keys-IsWellFormed, clear-IsWellFormed, empty_database-IsWellFormed, ttl-IsWellFormed,
  inspect-IsWellFormed,
}
use flash_kv.Database.Preserves.Lists.{
  list_push-IsWellFormed, list_pop-IsWellFormed, list_range-IsWellFormed, list_index-IsWellFormed,
  list_length-IsWellFormed,
}
use flash_kv.Database.Preserves.Hashes.{
  hash_set-IsWellFormed, hash_get-IsWellFormed, hash_delete-IsWellFormed, hash_get_all-IsWellFormed,
  hash_length-IsWellFormed, hash_exists-IsWellFormed,
}
use flash_kv.Database.Preserves.Sets.{
  set_add-IsWellFormed, set_remove-IsWellFormed, set_members-IsWellFormed,
  set_is_member-IsWellFormed, set_cardinality-IsWellFormed,
}
use flash_kv.Database.Cycle.{active_expire_cycle-Drops}
use flash_kv.Database.Eviction.{evict_if_needed-IsWellFormed}

-- The public methods that may change the object.
pub data Call : Type 0 where
  del_key exists_key type_key get_key string_length_of persist_key ttl_ms_of ttl_of : Bytes → Call
  list_length_of hash_get_all_of hash_length_of set_members_of cardinality_of : Bytes → Call
  keys_like inspect_key : Bytes → Call
  set_key append_to hash_get_of hash_exists_of is_member_of : Bytes → Bytes → Call
  increment expire_at expire_in index_in_list : Bytes → ℤ → Call
  push : Bytes → List Bytes → ListSide → Call
  pop : Bytes → ListSide → Call
  range : Bytes → ℤ → ℤ → Call
  set_fields_of : Bytes → Assoc Bytes → Call
  delete_fields_of add_members_to remove_members_from : Bytes → List Bytes → Call
  expire_cycle : ℕ → (ℕ → Bool) → Call
  limit_memory : ℕ → Call
  set_policy : EvictionPolicy → Call
  evict clear_all : Call

-- The state behind a call, whether it returns or throws.
unfoldable pub after : Call → Database → Database
after (del_key k) db = (del k db).1
after (exists_key k) db = (exists k db).1
after (type_key k) db = (type_of k db).1
after (get_key k) db = (get k db).1
after (string_length_of k) db = (string_length k db).1
after (persist_key k) db = (persist k db).1
after (ttl_ms_of k) db = (ttl_ms k db).1
after (ttl_of k) db = (ttl k db).1
after (list_length_of k) db = (list_length k db).1
after (hash_get_all_of k) db = (hash_get_all k db).1
after (hash_length_of k) db = (hash_length k db).1
after (set_members_of k) db = (set_members k db).1
after (cardinality_of k) db = (set_cardinality k db).1
after (keys_like pattern) db = (keys pattern db).1
after (inspect_key k) db = (inspect k db).1
after (set_key k v) db = (set k v db).1
after (append_to k v) db = (append k v db).1
after (hash_get_of k field) db = (hash_get k field db).1
after (hash_exists_of k field) db = (hash_exists k field db).1
after (is_member_of k m) db = (set_is_member k m db).1
after (increment k delta) db = (increment_by k delta db).1
after (expire_at k t) db = (expire_at_ms k t db).1
after (expire_in k seconds) db = (expire k seconds db).1
after (index_in_list k i) db = (list_index k i db).1
after (push k values side) db = (list_push k values side db).1
after (pop k side) db = (list_pop k side db).1
after (range k start stop) db = (list_range k start stop db).1
after (set_fields_of k fields) db = (hash_set k fields db).1
after (delete_fields_of k fields) db = (hash_delete k fields db).1
after (add_members_to k ms) db = (set_add k ms db).1
after (remove_members_from k ms) db = (set_remove k ms db).1
after (expire_cycle samples late) db = (active_expire_cycle samples late db).1
after (limit_memory bytes) db = set_max_memory bytes db
after (set_policy policy) db = set_eviction_policy policy db
after evict db = (evict_if_needed db).2
after clear_all db = clear db

unfoldable pub after_all : List Call → Database → Database
unfolding after
after_all [] db = db
after_all (c ∷ calls) db = after_all calls (after c db)

-- Every public method, on any arguments, leads from a well-formed state to a well-formed state,
-- whether it returns or throws.
pub after-IsWellFormed : (c : Call) (db : Database) → IsWellFormed db → IsWellFormed (after c db)
unfolding after
after-IsWellFormed (del_key k) db = del-IsWellFormed k db
after-IsWellFormed (exists_key k) db = exists-IsWellFormed k db
after-IsWellFormed (type_key k) db = type_of-IsWellFormed k db
after-IsWellFormed (get_key k) db = get-IsWellFormed k db
after-IsWellFormed (string_length_of k) db = string_length-IsWellFormed k db
after-IsWellFormed (persist_key k) db = persist-IsWellFormed k db
after-IsWellFormed (ttl_ms_of k) db = ttl_ms-IsWellFormed k db
after-IsWellFormed (ttl_of k) db = ttl-IsWellFormed k db
after-IsWellFormed (list_length_of k) db = list_length-IsWellFormed k db
after-IsWellFormed (hash_get_all_of k) db = hash_get_all-IsWellFormed k db
after-IsWellFormed (hash_length_of k) db = hash_length-IsWellFormed k db
after-IsWellFormed (set_members_of k) db = set_members-IsWellFormed k db
after-IsWellFormed (cardinality_of k) db = set_cardinality-IsWellFormed k db
after-IsWellFormed (keys_like pattern) db = keys-IsWellFormed pattern db
after-IsWellFormed (inspect_key k) db = inspect-IsWellFormed k db
after-IsWellFormed (set_key k v) db = set-IsWellFormed k v db
after-IsWellFormed (append_to k v) db = append-IsWellFormed k v db
after-IsWellFormed (hash_get_of k field) db = hash_get-IsWellFormed k field db
after-IsWellFormed (hash_exists_of k field) db = hash_exists-IsWellFormed k field db
after-IsWellFormed (is_member_of k m) db = set_is_member-IsWellFormed k m db
after-IsWellFormed (increment k delta) db = increment_by-IsWellFormed k delta db
after-IsWellFormed (expire_at k t) db = expire_at_ms-IsWellFormed k t db
after-IsWellFormed (expire_in k seconds) db = expire-IsWellFormed k seconds db
after-IsWellFormed (index_in_list k i) db = list_index-IsWellFormed k i db
after-IsWellFormed (push k values side) db = list_push-IsWellFormed k values side db
after-IsWellFormed (pop k side) db = list_pop-IsWellFormed k side db
after-IsWellFormed (range k start stop) db = list_range-IsWellFormed k start stop db
after-IsWellFormed (set_fields_of k fields) db = hash_set-IsWellFormed k fields db
after-IsWellFormed (delete_fields_of k fields) db = hash_delete-IsWellFormed k fields db
after-IsWellFormed (add_members_to k ms) db = set_add-IsWellFormed k ms db
after-IsWellFormed (remove_members_from k ms) db = set_remove-IsWellFormed k ms db
after-IsWellFormed (expire_cycle samples late) db =
    λ w. (active_expire_cycle-Drops samples late db w).2.well_formed
after-IsWellFormed (limit_memory bytes) db = λ w. unfold set_max_memory in w
after-IsWellFormed (set_policy policy) db = λ w. unfold set_eviction_policy in w
after-IsWellFormed evict db = evict_if_needed-IsWellFormed db
after-IsWellFormed clear_all db = λ _. clear-IsWellFormed db

after_all-IsWellFormed :
    (calls : List Call) (db : Database) → IsWellFormed db → IsWellFormed (after_all calls db)
unfolding after_all
after_all-IsWellFormed [] db w = w
after_all-IsWellFormed (c ∷ calls) db w =
    after_all-IsWellFormed calls (after c db) (after-IsWellFormed c db w)

-- From an empty database, whatever the clock, the random engine and the sequence of public calls,
-- the state is well-formed: the recency list holds exactly the stored keys, each once, volatile
-- indices and the vector of keys with a deadline name each other, each entry's memory and the
-- total are the exact costs modulo 2^64, and no hash has a field twice and no set a member twice.
pub reachable-IsWellFormed :
    (clock : ℕ → ℤ) (draw : ℕ → ℕ → ℕ) (calls : List Call)
    → IsWellFormed (after_all calls (empty_database clock draw))
reachable-IsWellFormed clock draw calls =
    after_all-IsWellFormed calls _ (empty_database-IsWellFormed clock draw)
