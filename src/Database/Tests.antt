-- ===== src/Database/Tests.antt =====
-- The theorems on `Database` at a small database, and runs of the code.
use flash_kv.Common.{
  ℕ, ◌≡◌, refl, ◌≢◌, ◌<◌, true, false, some, List, [], ◌∷◌, arith, Bytes, codes, Assoc, lookup,
  if◌then◌else◌, ◌===◌, length, modify, contains,
}
use flash_kv.Common.Int.{ℤ, in_range, ℤ, pos, negsuc}
use flash_kv.Common.Exec.{ok}
use flash_kv.Database.State.{
  Database, empty_database, left, right, all_keys_lru, now, find_live, create, set_expiry, touch,
  add_memory, store_value,
}
use flash_kv.Database.Glob.{glob_match}
use flash_kv.Database.Strings.{del, set, get, increment_by, append}
use flash_kv.Database.Expiry.{
  persist, active_expire_cycle, cycle_loop, evict_if_needed, set_max_memory, set_eviction_policy,
  expire_at_ms,
}
use flash_kv.Database.Lists.{list_push, list_pop, list_range}
use flash_kv.Database.Hashes.{with_field, hash_set, hash_delete, hash_get_all}
use flash_kv.Database.Sets.{set_add, set_remove, set_members}
use flash_kv.Database.Invariant.{IsWellFormed}
use flash_kv.Database.Live.{content, settle}
use flash_kv.Database.Eviction.{Evicts, evict_if_needed-Evicts}
use flash_kv.Database.Cycle.{Drops, active_expire_cycle-Drops, cycle_loop-fuel}
use flash_kv.Database.Reach.{
  Call, set_key, push, set_fields_of, add_members_to, expire_at, limit_memory, set_policy, after,
  after_all, reachable-IsWellFormed,
}
use flash_kv.Database.Refine.{Refines, time}
use flash_kv.Database.Refine.Strings.{
  cell_del, del-Refines, cell_set, set-Refines, cell_get, get-Refines, cell_append, append-Refines,
  cell_increment, increment_by-Refines, cell_persist, persist-Refines,
}
use flash_kv.Database.Refine.Lists.{
  cell_push, list_push-Refines, cell_pop, list_pop-Refines, cell_range, list_range-Refines,
}
use flash_kv.Database.Refine.Hashes.{
  lookup-with_field, cell_hset, hash_set-Refines, cell_hdel, hash_delete-Refines, cell_pairs,
  hash_get_all-Refines,
}
use mathlib.Core.List.{Perm}
use flash_kv.Database.Refine.Numerals.{integer}
use flash_kv.Database.Refine.Sorting.{IsAscending, fields_of}
use flash_kv.Database.Refine.Sets.{
  cell_sadd, set_add-Refines, cell_srem, set_remove-Refines, cell_listed, set_members-Refines,
}

-- A clock that moves by one at each reading, and draws of the first key.
abbrev ticking : ℕ → ℤ
ticking i = pos i

abbrev firsts : ℕ → ℕ → ℕ
firsts i n = 0

-- A string with a deadline, a list, a hash and a set, under a limit on the memory.
abbrev script : List Call
script =
    set_key (codes "n") (codes "41")
    ∷ expire_at (codes "n") (pos 3)
    ∷ push (codes "l") (codes "x" ∷ codes "y" ∷ []) right
    ∷ set_fields_of (codes "h") ((codes "f", codes "1") ∷ [])
    ∷ add_members_to (codes "s") (codes "m" ∷ codes "m" ∷ [])
    ∷ set_policy all_keys_lru
    ∷ limit_memory 300
    ∷ []

abbrev filled : Database
filled = after_all script (empty_database ticking firsts)

filled-IsWellFormed : IsWellFormed filled
filled-IsWellFormed = reachable-IsWellFormed ticking firsts script

limited : filled.memory_limit ≡ 300
unfolding after_all after set expire_at_ms list_push hash_set set_add set_eviction_policy
    set_max_memory empty_database
limited = refl

under_lru : filled.policy ≡ all_keys_lru
unfolding after_all after set expire_at_ms list_push hash_set set_add set_eviction_policy
    set_max_memory empty_database
under_lru = refl

one_deadline : length filled.volatile_keys ≡ 1
unfolding after_all after set expire_at_ms list_push hash_set set_add set_eviction_policy
    set_max_memory empty_database find_live lookup create ◌===◌ set_expiry modify touch add_memory
    store_value contains
one_deadline = refl

has_limit : filled.memory_limit ≢ 0
has_limit e = ground (arith, limited)

reachable-IsWellFormed_example : IsWellFormed (after_all script (empty_database ticking firsts))
reachable-IsWellFormed_example = reachable-IsWellFormed ticking firsts script

evict_if_needed-Evicts_example : Evicts filled [] (evict_if_needed filled)
evict_if_needed-Evicts_example = evict_if_needed-Evicts filled filled-IsWellFormed has_limit

active_expire_cycle-Drops_example :
    (n : ℕ) × ((active_expire_cycle 20 (λ i. false) filled).0 ≡ ok n)
    × Drops (now filled).0 filled (active_expire_cycle 20 (λ i. false) filled).1 n
active_expire_cycle-Drops_example =
    active_expire_cycle-Drops 20 (λ i. false) filled filled-IsWellFormed

enough : length filled.volatile_keys < 2
enough = omega (arith, one_deadline)

cycle_loop-fuel_example :
    cycle_loop 3 20 (pos 9) (λ i. false) 0 filled 0
    ≡ cycle_loop 2 20 (pos 9) (λ i. false) 0 filled 0
cycle_loop-fuel_example =
    cycle_loop-fuel 2 20 (pos 9) (λ i. false) 0 filled 0 filled-IsWellFormed enough

abbrev n : Bytes
n = codes "n"

abbrev l : Bytes
l = codes "l"

abbrev h : Bytes
h = codes "h"

abbrev s : Bytes
s = codes "s"

del-Refines_example :
    Refines n filled (cell_del (settle (time filled) (content n filled))) (del n filled)
del-Refines_example = del-Refines n filled

set-Refines_example :
    Refines n filled
      (cell_set (codes "v") (settle (time filled) (content n filled)))
      (set n (codes "v") filled)
set-Refines_example = set-Refines n (codes "v") filled

get-Refines_example :
    Refines n filled (cell_get (settle (time filled) (content n filled))) (get n filled)
get-Refines_example = get-Refines n filled

append-Refines_example :
    Refines n filled
      (cell_append (codes "0") (settle (time filled) (content n filled)))
      (append n (codes "0") filled)
append-Refines_example = append-Refines n (codes "0") filled

increment_by-Refines_example :
    (print : ℤ → Bytes) × ((z : ℤ) → in_range z ≡ true → integer (print z) ≡ some z)
    × Refines n filled
        (cell_increment print (pos 1) (settle (time filled) (content n filled)))
        (increment_by n (pos 1) filled)
increment_by-Refines_example = increment_by-Refines n (pos 1) filled

persist-Refines_example :
    Refines n filled (cell_persist (settle (time filled) (content n filled))) (persist n filled)
persist-Refines_example = persist-Refines n filled

list_push-Refines_example :
    Refines l filled
      (cell_push left (codes "z" ∷ []) (settle (time filled) (content l filled)))
      (list_push l (codes "z" ∷ []) left filled)
list_push-Refines_example = list_push-Refines l (codes "z" ∷ []) left filled

list_pop-Refines_example :
    Refines l filled
      (cell_pop right (settle (time filled) (content l filled)))
      (list_pop l right filled)
list_pop-Refines_example = list_pop-Refines l right filled

list_range-Refines_example :
    Refines l filled
      (cell_range (pos 0) (negsuc 0) (settle (time filled) (content l filled)))
      (list_range l (pos 0) (negsuc 0) filled)
list_range-Refines_example = list_range-Refines l (pos 0) (negsuc 0) filled

lookup-with_field_example :
    lookup (codes "g") (with_field (codes "f") (codes "2") ((codes "g", codes "1") ∷ [])) ≡ (
      if codes "f" === codes "g"
      then some (codes "2")
      else lookup (codes "g") ((codes "g", codes "1") ∷ []))
lookup-with_field_example =
    lookup-with_field (codes "f") (codes "2") (codes "g") ((codes "g", codes "1") ∷ [])

abbrev fields : Assoc Bytes
fields = (codes "f", codes "2") ∷ (codes "g", codes "3") ∷ []

hash_set-Refines_example :
    Refines h filled
      (cell_hset fields (settle (time filled) (content h filled)))
      (hash_set h fields filled)
hash_set-Refines_example = hash_set-Refines h fields filled

hash_delete-Refines_example :
    Refines h filled
      (cell_hdel (codes "f" ∷ []) (settle (time filled) (content h filled)))
      (hash_delete h (codes "f" ∷ []) filled)
hash_delete-Refines_example = hash_delete-Refines h (codes "f" ∷ []) filled

hash_get_all-Refines_example :
    (order : Assoc Bytes → Assoc Bytes) × ((l : Assoc Bytes)
      → IsAscending (fields_of (order l)) × Perm (order l) l)
    × Refines h filled
        (cell_pairs order (settle (time filled) (content h filled)))
        (hash_get_all h filled)
hash_get_all-Refines_example = hash_get_all-Refines h filled

set_add-Refines_example :
    Refines s filled
      (cell_sadd (codes "k" ∷ []) (settle (time filled) (content s filled)))
      (set_add s (codes "k" ∷ []) filled)
set_add-Refines_example = set_add-Refines s (codes "k" ∷ []) filled

set_remove-Refines_example :
    Refines s filled
      (cell_srem (codes "m" ∷ []) (settle (time filled) (content s filled)))
      (set_remove s (codes "m" ∷ []) filled)
set_remove-Refines_example = set_remove-Refines s (codes "m" ∷ []) filled

set_members-Refines_example :
    (order : List Bytes → List Bytes) × ((l : List Bytes)
      → IsAscending (order l) × Perm (order l) l)
    × Refines s filled
        (cell_listed order (settle (time filled) (content s filled)))
        (set_members s filled)
set_members-Refines_example = set_members-Refines s filled

-- Runs of the code.
glob_star : glob_match (codes "h*[a-c]o") (codes "hello hbo") ≡ true
unfolding glob_match
glob_star = refl

glob_class : glob_match (codes "[^a-c]?") (codes "b1") ≡ false
unfolding glob_match
glob_class = refl
