-- ===== src/Database/Refine/Sets.antt =====
-- Set operations on one cell of the abstract map, and the proofs that `Database` implements them.
use mathlib.Core.List.{Perm}
use flash_kv.Common.{
  ℕ, ◌+◌, ◌≡◌, refl, ap, Bool, false, none, some, List, [], ◌∷◌, arith, Bytes, inl, inr, Bool-cases,
  length, if◌then◌else◌, contains, remove,
}
use native.Mathlib.Nat.{add_assoc}
use flash_kv.Common.Int.{ℤ}
use flash_kv.Common.Exec.{Outcome, ok}
use flash_kv.Database.State.{Database, members, no_expiry, element_cost, touch}
use flash_kv.Database.Hashes.{sort, drop_if_empty}
use flash_kv.Database.Sets.{
  add_member, add_members, set_add, remove_member, remove_members, set_remove, set_members,
  set_is_member, set_cardinality,
}
use flash_kv.Database.Refine.Sorting.{IsAscending, sort-IsAscending, sort-perm}
use flash_kv.Database.Live.{content, content_of, settle}
use flash_kv.Database.Refine.{
  Cell, Writes, Refines, Writes-nothing, Writes-then, Refines-then, Refines-nothing, Refines-same,
  refine_live, erase-Writes, time,
}
use flash_kv.Database.Refine.Primitives.{
  on_set, refine_set, acquire-Refines, store_value-Writes, add_memory-Writes, remove_memory-Writes,
  touch-Writes,
}

-- The set with the members, and how many were new when their turn came.
abbrev pub add_all : List Bytes → List Bytes → List Bytes
add_all [] s = s
add_all (m ∷ ms) s = add_all ms (if contains m s then s else m ∷ s)

abbrev pub count_added : List Bytes → List Bytes → ℕ
count_added [] s = 0
count_added (m ∷ ms) s =
    let old = count_added ms s in
    let new = 1 + count_added ms (m ∷ s) in if contains m s then old else new

add_member-Writes :
    (k m : Bytes) (s : List Bytes) {t : ℤ} {db : Database}
    → content k db ≡ some (members s, t)
    → Writes k db (some (members (m ∷ s), t)) (add_member k m s db)
unfolding add_member
add_member-Writes k m s e =
    let stored = store_value-Writes k e (members (m ∷ s)) in
    Writes-then stored (add_memory-Writes k stored.here (element_cost m))

add_members-Refines :
    (k : Bytes) (ms s : List Bytes) (added : ℕ) {t : ℤ} {db : Database}
    → content k db ≡ some (members s, t)
    → Refines k db
        (ok (added + count_added ms s), some (members (add_all ms s), t))
        (add_members k ms s added db)
unfolding add_members
add_members-Refines k [] s added e =
    let same : added + 0 ≡ added = omega arith in rw same (Refines-nothing e)
add_members-Refines k (m ∷ ms) s added e = elim (Bool-cases (contains m s)) [
  | inl old ↦ rw old (add_members-Refines k ms s added e)
  | inr new ↦ rw new (
      let there = add_member-Writes k m s e in
      rw (← add_assoc added 1 (count_added ms (m ∷ s)))
        (Refines-then there (add_members-Refines k ms (m ∷ s) (added + 1) there.here)))
]

abbrev pub cell_set_add : List Bytes → List Bytes → ℤ → Outcome ℕ × Cell
cell_set_add ms s t = (ok (count_added ms s), some (members (add_all ms s), t))

-- SADD: a missing key counts as an empty set, without a deadline.
abbrev pub cell_sadd : List Bytes → Cell → Outcome ℕ × Cell
cell_sadd ms = on_set (cell_set_add ms [] no_expiry) (cell_set_add ms)

-- SADD adds the members that are new when their turn comes, returns how many, and keeps the
-- deadline; a missing key counts as an empty set without a deadline, and another type gives
-- WRONGTYPE and stays. A key whose deadline has passed at the first reading of the clock counts as
-- missing; the view of every other key stays.
pub set_add-Refines :
    (k : Bytes) (ms : List Bytes) (db : Database)
    → Refines k db (cell_sadd ms (settle (time db) (content k db))) (set_add k ms db)
unfolding set_add
set_add-Refines k ms = acquire-Refines k (members []) (cell_sadd ms) _ refl (
    refine_set k (cell_set_add ms [] no_expiry) (cell_set_add ms) _ λ s t db e.
      let stored = add_members-Refines k ms s 0 {db = db} e in
      rw stored.result
        (record { result = ap ok (omega arith); writes = touch-Writes stored.writes }))

-- The set without the members, and how many were there when their turn came.
abbrev pub remove_all : List Bytes → List Bytes → List Bytes
remove_all [] s = s
remove_all (m ∷ ms) s = remove_all ms (if contains m s then remove m s else s)

abbrev pub count_removed : List Bytes → List Bytes → ℕ
count_removed [] s = 0
count_removed (m ∷ ms) s =
    let missing = count_removed ms s in
    let there = 1 + count_removed ms (remove m s) in if contains m s then there else missing

abbrev pub set_cell : List Bytes → ℤ → Cell
set_cell [] t = none
set_cell (m ∷ s) t = some (members (m ∷ s), t)

-- SREM: the set goes with its last member.
abbrev pub cell_srem : List Bytes → Cell → Outcome ℕ × Cell
cell_srem ms = on_set (ok 0, none) (λ s t. (ok (count_removed ms s), set_cell (remove_all ms s) t))

remove_member-Writes :
    (k m : Bytes) (s : List Bytes) {t : ℤ} {db : Database}
    → content k db ≡ some (members s, t)
    → Writes k db (some (members (remove m s), t)) (remove_member k m s db)
unfolding remove_member
remove_member-Writes k m s e =
    let stored = store_value-Writes k e (members (remove m s)) in
    Writes-then stored (remove_memory-Writes k stored.here (element_cost m))

remove_members-Refines :
    (k : Bytes) (ms s : List Bytes) (removed : ℕ) {t : ℤ} {db : Database}
    → content k db ≡ some (members s, t)
    → Refines k db
        (ok (remove_all ms s, removed + count_removed ms s), some (members (remove_all ms s), t))
        (remove_members k ms s removed db)
unfolding remove_members
remove_members-Refines k [] s removed e =
    let same : removed + 0 ≡ removed = omega arith in rw same (Refines-nothing e)
remove_members-Refines k (m ∷ ms) s removed e = elim (Bool-cases (contains m s)) [
  | inl there ↦ rw there (
      let gone = remove_member-Writes k m s e in
      rw (← add_assoc removed 1 (count_removed ms (remove m s)))
        (Refines-then gone (remove_members-Refines k ms (remove m s) (removed + 1) gone.here)))
  | inr missing ↦ rw missing (remove_members-Refines k ms s removed e)
]

drop_if_empty-Writes :
    (k : Bytes) (s : List Bytes) {t : ℤ} {db : Database}
    → content k db ≡ some (members s, t)
    → Writes k db (set_cell s t) (drop_if_empty k s db)
drop_if_empty-Writes k [] {t} {db} e = erase-Writes k db
drop_if_empty-Writes k (m ∷ s) e = Writes-nothing e

-- SREM removes the members, returns how many were there when their turn came, and a set without
-- further members goes with its key, another keeps its deadline; a missing key gives 0, another
-- type gives WRONGTYPE and stays. A key whose deadline has passed at the first reading of the
-- clock counts as missing; the view of every other key stays.
pub set_remove-Refines :
    (k : Bytes) (ms : List Bytes) (db : Database)
    → Refines k db (cell_srem ms (settle (time db) (content k db))) (set_remove k ms db)
unfolding set_remove
set_remove-Refines k ms =
    refine_live k (cell_srem ms) _ (λ db e. Refines-nothing (ap content_of e))
      λ e db found.
        refine_set k (ok 0, none) _ _
          (λ s t db' q.
            let d = remove_members-Refines k ms s 0 {db = db'} q in
            rw d.result (record {
              result = ap ok (omega arith);
              writes =
                  Writes-then d.writes (drop_if_empty-Writes k (remove_all ms s) d.writes.here);
            }))
          e db (ap content_of found)

-- SMEMBERS, SISMEMBER and SCARD change nothing.
abbrev pub cell_listed : (List Bytes → List Bytes) → Cell → Outcome (List Bytes) × Cell
cell_listed order = on_set (ok [], none) (λ s t. (ok (order s), some (members s, t)))

abbrev pub cell_smembers : Cell → Outcome (List Bytes) × Cell
cell_smembers = cell_listed sort

pub set_members_sort :
    (k : Bytes) (db : Database)
    → Refines k db (cell_smembers (settle (time db) (content k db))) (set_members k db)
unfolding set_members touch
set_members_sort k =
    refine_live k cell_smembers _ (λ db e. Refines-nothing (ap content_of e))
      λ e db found.
        refine_set k (ok [], none) _ _ (λ s t db' q. Refines-same (λ j. refl) q) e db
          (ap content_of found)

-- SMEMBERS returns the members of the set, each as often as it is there, in the ascending order of
-- bytes; nothing for a missing key, WRONGTYPE for another type; the view stays. A key whose
-- deadline has passed at the first reading of the clock counts as missing; the view of every other
-- key stays.
pub set_members-Refines :
    (k : Bytes) (db : Database)
    → (order : List Bytes → List Bytes) × ((s : List Bytes)
        → IsAscending (order s) × Perm (order s) s)
      × Refines k db (cell_listed order (settle (time db) (content k db))) (set_members k db)
set_members-Refines k db = (sort, λ s. (sort-IsAscending s, sort-perm s), set_members_sort k db)

abbrev pub cell_sismember : Bytes → Cell → Outcome Bool × Cell
cell_sismember m = on_set (ok false, none) (λ s t. (ok (contains m s), some (members s, t)))

-- SISMEMBER answers whether the set has the member, false for a missing key, WRONGTYPE for another
-- type; the view stays. A key whose deadline has passed at the first reading of the clock counts
-- as missing; the view of every other key stays.
pub set_is_member-Refines :
    (k m : Bytes) (db : Database)
    → Refines k db (cell_sismember m (settle (time db) (content k db))) (set_is_member k m db)
unfolding set_is_member
set_is_member-Refines k m =
    refine_live k (cell_sismember m) _ (λ db e. Refines-nothing (ap content_of e))
      λ e db found.
        refine_set k (ok false, none) _ _ (λ s t db' q. Refines-nothing q) e db
          (ap content_of found)

abbrev pub cell_scard : Cell → Outcome ℕ × Cell
cell_scard = on_set (ok 0, none) (λ s t. (ok (length s), some (members s, t)))

pub set_cardinality-Refines :
    (k : Bytes) (db : Database)
    → Refines k db (cell_scard (settle (time db) (content k db))) (set_cardinality k db)
unfolding set_cardinality
set_cardinality-Refines k =
    refine_live k cell_scard _ (λ db e. Refines-nothing (ap content_of e))
      λ e db found.
        refine_set k (ok 0, none) _ _ (λ s t db' q. Refines-nothing q) e db (ap content_of found)
