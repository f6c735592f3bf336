-- ===== src/Database/Refine/Hashes.antt =====
-- Hash operations on one cell of the abstract map, and the proofs that `Database` implements them.
use mathlib.Core.List.{Perm}
use flash_kv.Common.{
  ℕ, ◌+◌, ◌≡◌, refl, ap, Bool, false, not, Option, none, some, List, [], ◌∷◌, arith, Bytes, inl,
  inr, Option-cases, length, Assoc, lookup, without, modify, is_some, if◌then◌else◌, ◌===◌, ===_iff,
  lookup-modify, without_absent,
}
use native.Mathlib.Nat.{add_assoc}
use flash_kv.Common.Int.{ℤ}
use flash_kv.Common.Exec.{Outcome, ok}
use flash_kv.Database.State.{Database, Value, hash, no_expiry, erase, element_cost, touch}
use flash_kv.Database.Hashes.{
  emplace, with_field, set_field, set_fields, one_if, hash_set, hash_get, delete_field,
  delete_fields, drop_if_empty, hash_delete, sort_fields, hash_get_all, hash_length, hash_exists,
}
use flash_kv.Database.Preserves.Hashes.{with_fields}
use flash_kv.Database.Refine.Sorting.{
  IsAscending, fields_of, sort_fields-IsAscending, sort_fields-perm,
}
use flash_kv.Database.Live.{content, content_of, settle}
use flash_kv.Database.Refine.{
  Cell, Writes, Refines, Writes-nothing, Writes-then, Refines-then, Refines-nothing, Refines-same,
  refine_live, erase-Writes, time,
}
use flash_kv.Database.Refine.Primitives.{
  on_hash, refine_hash, acquire-Refines, store_value-Writes, add_memory-Writes,
  remove_memory-Writes, touch-Writes,
}

-- After one field of HSET, a lookup gives the new value for that field and the old result for
-- every other one, whether or not the field was there.
pub lookup-with_field :
    (field v g : Bytes) (h : Assoc Bytes)
    → lookup g (with_field field v h) ≡ (if field === g then some v else lookup g h)
unfolding lookup
lookup-with_field field v g h = elim (Option-cases (lookup field h)) [
  | inl new ↦
      rw new (ground (arith, lookup-modify field g (λ _. v) ((field, []) ∷ h), ===_iff field g))
  | inr (old, there) ↦ rw there (ground (arith, lookup-modify field g (λ _. v) h, ===_iff field g))
]

set_field-Writes :
    (k field v : Bytes) (h : Assoc Bytes) {t : ℤ} {db : Database}
    → content k db ≡ some (hash h, t)
    → Writes k db (some (hash (with_field field v h), t)) (set_field k field v h db)
unfolding set_field
set_field-Writes k field v h {t} {db} e = elim (Option-cases (lookup field h)) [
  | inl new ↦
      rw (new, emplace)
        (let stored = store_value-Writes k {db = db} e (hash ((field, []) ∷ h)) in
          let grown = Writes-then stored (add_memory-Writes k stored.here (element_cost field)) in
          finish ((field, []) ∷ h) grown)
  | inr (old, there) ↦
      rw (there, emplace) (finish h (remove_memory-Writes k {db = db} e (length old)))
]
  where
    finish :
        (h' : Assoc Bytes) {db' : Database} {u : Value}
        → Writes k db (some (u, t)) db'
        → Writes k db (some (hash (modify field (λ _. v) h'), t)) (
            flash_kv.Database.State.add_memory k
              (length v)
              (flash_kv.Database.State.store_value k (hash (modify field (λ _. v) h')) db'))
    finish h' w =
        let stored =
          Writes-then w (store_value-Writes k w.here (hash (modify field (λ _. v) h'))) in
        Writes-then stored (add_memory-Writes k stored.here (length v))

-- The fields that are new when their turn comes.
abbrev pub count_new : Assoc Bytes → Assoc Bytes → ℕ
count_new [] h = 0
count_new ((field, v) ∷ fields) h =
    one_if (not (is_some (lookup field h))) + count_new fields (with_field field v h)

set_fields-Refines :
    (k : Bytes) (fields h : Assoc Bytes) (added : ℕ) {t : ℤ} {db : Database}
    → content k db ≡ some (hash h, t)
    → Refines k db
        (ok (added + count_new fields h), some (hash (with_fields fields h), t))
        (set_fields k fields h added db)
unfolding set_fields with_fields
set_fields-Refines k [] h added e = record {
  result = ap ok (omega arith);
  writes = Writes-nothing e;
}
set_fields-Refines k ((field, v) ∷ fields) h added e =
    let stored = set_field-Writes k field v h e in
    let fresh = one_if (not (is_some (lookup field h))) in
    rw (← add_assoc added fresh (count_new fields (with_field field v h))) (
      Refines-then stored
        (set_fields-Refines k fields (with_field field v h) (added + fresh) stored.here))

abbrev pub cell_hash_set : Assoc Bytes → Assoc Bytes → ℤ → Outcome ℕ × Cell
cell_hash_set fields h t = (ok (count_new fields h), some (hash (with_fields fields h), t))

-- HSET: a missing key counts as an empty hash, without a deadline.
abbrev pub cell_hset : Assoc Bytes → Cell → Outcome ℕ × Cell
cell_hset fields = on_hash (cell_hash_set fields [] no_expiry) (cell_hash_set fields)

-- HSET returns how many fields were new when their turn came and assigns the fields in order,
-- later ones over earlier ones; the deadline of the hash stays, a missing key becomes a hash
-- without one, and another type gives WRONGTYPE and stays. A key whose deadline has passed at the
-- first reading of the clock counts as missing; the view of every other key stays.
pub hash_set-Refines :
    (k : Bytes) (fields : Assoc Bytes) (db : Database)
    → Refines k db (cell_hset fields (settle (time db) (content k db))) (hash_set k fields db)
unfolding hash_set
hash_set-Refines k fields = acquire-Refines k (hash []) (cell_hset fields) _ refl (
    refine_hash k (cell_hash_set fields [] no_expiry) (cell_hash_set fields) _ λ h t db e.
      let stored = set_fields-Refines k fields h 0 {db = db} e in
      rw stored.result
        (record { result = ap ok (omega arith); writes = touch-Writes stored.writes }))

-- HGET, HGETALL, HLEN and HEXISTS change nothing.
abbrev pub cell_hget : Bytes → Cell → Outcome (Option Bytes) × Cell
cell_hget field = on_hash (ok none, none) (λ h t. (ok (lookup field h), some (hash h, t)))

-- HGET returns the value of the field, nothing for a missing key or field, WRONGTYPE for another
-- type; the view stays. A key whose deadline has passed at the first reading of the clock counts
-- as missing; the view of every other key stays.
pub hash_get-Refines :
    (k field : Bytes) (db : Database)
    → Refines k db (cell_hget field (settle (time db) (content k db))) (hash_get k field db)
unfolding hash_get
hash_get-Refines k field =
    refine_live k (cell_hget field) _ (λ db e. Refines-nothing (ap content_of e))
      λ e db found.
        refine_hash k (ok none, none) _ _
          (λ h t db' q. elim (Option-cases (lookup field h)) [
            | inl missing ↦ rw missing (Refines-nothing q)
            | inr (v, there) ↦ rw there (unfold touch in Refines-same (λ j. refl) q)
          ])
          e db (ap content_of found)

abbrev pub cell_pairs : (Assoc Bytes → Assoc Bytes) → Cell → Outcome (Assoc Bytes) × Cell
cell_pairs order = on_hash (ok [], none) (λ h t. (ok (order h), some (hash h, t)))

abbrev pub cell_hgetall : Cell → Outcome (Assoc Bytes) × Cell
cell_hgetall = cell_pairs sort_fields

pub hash_get_all_sort :
    (k : Bytes) (db : Database)
    → Refines k db (cell_hgetall (settle (time db) (content k db))) (hash_get_all k db)
unfolding hash_get_all touch
hash_get_all_sort k =
    refine_live k cell_hgetall _ (λ db e. Refines-nothing (ap content_of e))
      λ e db found.
        refine_hash k (ok [], none) _ _ (λ h t db' q. Refines-same (λ j. refl) q) e db
          (ap content_of found)

-- HGETALL returns the fields and values of the hash, each as often as it is there, with the fields
-- in the ascending order of bytes; nothing for a missing key, WRONGTYPE for another type; the view
-- stays. A key whose deadline has passed at the first reading of the clock counts as missing; the
-- view of every other key stays.
pub hash_get_all-Refines :
    (k : Bytes) (db : Database)
    → (order : Assoc Bytes → Assoc Bytes) × ((h : Assoc Bytes)
        → IsAscending (fields_of (order h)) × Perm (order h) h)
      × Refines k db (cell_pairs order (settle (time db) (content k db))) (hash_get_all k db)
hash_get_all-Refines k db =
    (sort_fields, λ h. (sort_fields-IsAscending h, sort_fields-perm h), hash_get_all_sort k db)

abbrev pub cell_hlen : Cell → Outcome ℕ × Cell
cell_hlen = on_hash (ok 0, none) (λ h t. (ok (length h), some (hash h, t)))

pub hash_length-Refines :
    (k : Bytes) (db : Database)
    → Refines k db (cell_hlen (settle (time db) (content k db))) (hash_length k db)
unfolding hash_length
hash_length-Refines k =
    refine_live k cell_hlen _ (λ db e. Refines-nothing (ap content_of e))
      λ e db found.
        refine_hash k (ok 0, none) _ _ (λ h t db' q. Refines-nothing q) e db (ap content_of found)

abbrev pub cell_hexists : Bytes → Cell → Outcome Bool × Cell
cell_hexists field =
    on_hash (ok false, none) (λ h t. (ok (is_some (lookup field h)), some (hash h, t)))

pub hash_exists-Refines :
    (k field : Bytes) (db : Database)
    → Refines k db (cell_hexists field (settle (time db) (content k db))) (hash_exists k field db)
unfolding hash_exists
hash_exists-Refines k field =
    refine_live k (cell_hexists field) _ (λ db e. Refines-nothing (ap content_of e))
      λ e db found.
        refine_hash k (ok false, none) _ _ (λ h t db' q. Refines-nothing q) e db
          (ap content_of found)

-- The hash without the fields, and how many were there when their turn came.
abbrev pub without_all : List Bytes → Assoc Bytes → Assoc Bytes
without_all [] h = h
without_all (field ∷ fields) h = without_all fields (without field h)

abbrev pub count_there : List Bytes → Assoc Bytes → ℕ
count_there [] h = 0
count_there (field ∷ fields) h =
    one_if (is_some (lookup field h)) + count_there fields (without field h)

abbrev pub hash_cell : Assoc Bytes → ℤ → Cell
hash_cell [] t = none
hash_cell (f ∷ h) t = some (hash (f ∷ h), t)

-- HDEL: the hash goes with its last field.
abbrev pub cell_hdel : List Bytes → Cell → Outcome ℕ × Cell
cell_hdel fields =
    on_hash (ok 0, none) (λ h t. (ok (count_there fields h), hash_cell (without_all fields h) t))

delete_field-Writes :
    (k field v : Bytes) (h : Assoc Bytes) {t : ℤ} {db : Database}
    → content k db ≡ some (hash h, t)
    → Writes k db (some (hash (without field h), t)) (delete_field k field v h db)
unfolding delete_field
delete_field-Writes k field v h e =
    let freed = remove_memory-Writes k e (element_cost field + length v) in
    Writes-then freed (store_value-Writes k freed.here (hash (without field h)))

delete_fields-Refines :
    (k : Bytes) (fields : List Bytes) (h : Assoc Bytes) (removed : ℕ) {t : ℤ} {db : Database}
    → content k db ≡ some (hash h, t)
    → Refines k db
        (
          ok (without_all fields h, removed + count_there fields h),
          some (hash (without_all fields h), t),
        )
        (delete_fields k fields h removed db)
unfolding delete_fields
delete_fields-Refines k [] h removed e =
    let same : removed + 0 ≡ removed = omega arith in rw same (Refines-nothing e)
delete_fields-Refines k (field ∷ fields) h removed {t} {db} e =
    elim (Option-cases (lookup field h)) [
      | inl missing ↦
          rw (missing, delete_fields)
            (let same : removed + (0 + count_there fields h) ≡ removed + count_there fields h =
                omega arith in
              rw (without_absent field h missing, same)
                (delete_fields-Refines k fields h removed e))
      | inr (v, there) ↦
          rw (there, delete_fields)
            (let gone = delete_field-Writes k field v h e in
              rw (← add_assoc removed 1 (count_there fields (without field h))) (
                Refines-then gone
                  (delete_fields-Refines k fields (without field h) (removed + 1) gone.here)))
    ]

drop_if_empty-Writes :
    (k : Bytes) (h : Assoc Bytes) {t : ℤ} {db : Database}
    → content k db ≡ some (hash h, t)
    → Writes k db (hash_cell h t) (drop_if_empty k h db)
drop_if_empty-Writes k [] {t} {db} e = erase-Writes k db
drop_if_empty-Writes k (f ∷ h) e = Writes-nothing e

-- HDEL removes the fields and returns how many were there when their turn came; a hash without
-- further fields goes with its key, another keeps its deadline; a missing key gives 0, another
-- type gives WRONGTYPE and stays. A key whose deadline has passed at the first reading of the
-- clock counts as missing; the view of every other key stays.
pub hash_delete-Refines :
    (k : Bytes) (fields : List Bytes) (db : Database)
    → Refines k db (cell_hdel fields (settle (time db) (content k db))) (hash_delete k fields db)
unfolding hash_delete
hash_delete-Refines k fields =
    refine_live k (cell_hdel fields) _ (λ db e. Refines-nothing (ap content_of e))
      λ e db found.
        refine_hash k (ok 0, none) _ _
          (λ h t db' q.
            let d = delete_fields-Refines k fields h 0 {db = db'} q in
            rw d.result (record {
              result = ap ok (omega arith);
              writes =
                  Writes-then d.writes
                    (drop_if_empty-Writes k (without_all fields h) d.writes.here);
            }))
          e db (ap content_of found)
