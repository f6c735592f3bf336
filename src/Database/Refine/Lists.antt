-- ===== src/Database/Refine/Lists.antt =====
-- List operations on one cell of the abstract map, and the proofs that `Database` implements them.
use flash_kv.Common.{
  ℕ, ◌≡◌, refl, ap, Option, none, some, List, [], ◌∷◌, Bytes, inl, inr, Option-cases, length,
  get_elem?,
}
use flash_kv.Common.Int.{ℤ}
use flash_kv.Common.Exec.{Outcome, ok, throw, undefined}
use flash_kv.Database.State.{Database, ListSide, Value, list, no_expiry, touch, element_cost}
use flash_kv.Database.Lists.{
  pushed, push_value, push_loop, list_push, popped, keep_or_drop, list_pop, range_bounds,
  list_range, index_of, list_index, list_length,
}
use flash_kv.Database.Preserves.Lists.{pushed_all}
use flash_kv.Database.Live.{content, content_of, settle}
use flash_kv.Database.Refine.{
  Cell, Writes, Refines, Writes-then, Refines-then, Refines-nothing, Refines-same, refine_live,
  erase-Writes, time,
}
use flash_kv.Database.Refine.Ends.{
  extended, pushed_all-extended, end_of, popped-end_of, between, ranged-between,
}
use flash_kv.Database.Refine.Primitives.{
  on_list, refine_list, acquire-Refines, store_value-Writes, add_memory-Writes,
  remove_memory-Writes, touch-Writes,
}

push_value-Writes :
    (k : Bytes) (side : ListSide) (v : Bytes) (l : List Bytes) {u : Value} {t : ℤ} {db : Database}
    → content k db ≡ some (u, t)
    → Writes k db (some (list (pushed side v l), t)) (push_value k side v l db)
unfolding push_value
push_value-Writes k side v l h =
    let stored = store_value-Writes k h (list (pushed side v l)) in
    Writes-then stored (add_memory-Writes k stored.here (element_cost v))

push_loop-Refines :
    (k : Bytes) (side : ListSide) (values l : List Bytes) {t : ℤ} {db : Database}
    → content k db ≡ some (list l, t)
    → Refines k db
        (ok (pushed_all side values l), some (list (pushed_all side values l), t))
        (push_loop k side values l db)
unfolding push_loop pushed_all
push_loop-Refines k side [] l h = Refines-nothing h
push_loop-Refines k side (v ∷ values) l h =
    let stored = push_value-Writes k side v l h in
    Refines-then stored (push_loop-Refines k side values (pushed side v l) stored.here)

abbrev pub cell_list_push : ListSide → List Bytes → List Bytes → ℤ → Outcome ℕ × Cell
cell_list_push side values l t =
    (ok (length (extended side values l)), some (list (extended side values l), t))

-- LPUSH and RPUSH: a missing key counts as an empty list, without a deadline.
abbrev pub cell_push : ListSide → List Bytes → Cell → Outcome ℕ × Cell
cell_push side values =
    on_list (cell_list_push side values [] no_expiry) (cell_list_push side values)

-- LPUSH puts the values before the list, the last one first, and RPUSH puts them behind it in
-- their order; the deadline stays and the new length is returned; a missing key counts as an empty
-- list without a deadline, and another type gives WRONGTYPE and stays. A key whose deadline has
-- passed at the first reading of the clock counts as missing; the view of every other key stays.
pub list_push-Refines :
    (k : Bytes) (values : List Bytes) (side : ListSide) (db : Database)
    → Refines k db
        (cell_push side values (settle (time db) (content k db)))
        (list_push k values side db)
unfolding list_push
list_push-Refines k values side = acquire-Refines k (list []) (cell_push side values) _ refl (
    refine_list k (cell_list_push side values [] no_expiry) (cell_list_push side values) _
      λ l t db h.
        let stored = push_loop-Refines k side values l {db = db} h in
        rw (stored.result, ← pushed_all-extended side values l)
          (record { result = refl; writes = touch-Writes stored.writes }))

-- What is left of a list: an empty one goes with its key.
abbrev pub rest_cell : List Bytes → ℤ → Cell
rest_cell [] t = none
rest_cell (v ∷ l) t = some (list (v ∷ l), t)

abbrev pub cell_popped :
    List Bytes → ℤ → Option (Bytes × List Bytes) → Outcome (Option Bytes) × Cell
cell_popped l t none = (throw undefined, some (list l, t))
cell_popped l t (some (v, rest)) = (ok (some v), rest_cell rest t)

-- LPOP and RPOP.
abbrev pub cell_pop : ListSide → Cell → Outcome (Option Bytes) × Cell
cell_pop side = on_list (ok none, none) (λ l t. cell_popped l t (end_of side l))

keep_or_drop-Writes :
    (k : Bytes) (l : List Bytes) {t : ℤ} {db : Database}
    → content k db ≡ some (list l, t)
    → Writes k db (rest_cell l t) (keep_or_drop k l db)
unfolding touch
keep_or_drop-Writes k [] {db = db} h = erase-Writes k db
keep_or_drop-Writes k (v ∷ l) h = record { here = h; elsewhere = λ j _. refl }

-- LPOP takes the first element and RPOP the last one, which is the first of the reversed list, and
-- returns it; a list without further elements goes with its key, another keeps its deadline; a
-- missing key gives nothing, another type gives WRONGTYPE and stays, and a stored list without
-- elements would be undefined behaviour. A key whose deadline has passed at the first reading of
-- the clock counts as missing; the view of every other key stays.
pub list_pop-Refines :
    (k : Bytes) (side : ListSide) (db : Database)
    → Refines k db (cell_pop side (settle (time db) (content k db))) (list_pop k side db)
unfolding list_pop
list_pop-Refines k side =
    refine_live k (cell_pop side) _ (λ db e. Refines-nothing (ap content_of e))
      λ e db found.
        refine_list k (ok none, none) (λ l t. cell_popped l t (end_of side l)) _
          (λ l t db' h. rw (← popped-end_of side l) elim (Option-cases (popped side l)) [
            | inl nothing ↦ rw nothing (Refines-nothing h)
            | inr ((v, rest), taken) ↦ rw taken (
                let stored = store_value-Writes k h (list rest) in
                let freed =
                  Writes-then stored (remove_memory-Writes k stored.here (element_cost v)) in
                record {
                  result = refl;
                  writes = Writes-then freed (keep_or_drop-Writes k rest freed.here);
                })
          ])
          e db (ap content_of found)

-- LRANGE, LINDEX and LLEN change nothing.
abbrev pub cell_range : ℤ → ℤ → Cell → Outcome (List Bytes) × Cell
cell_range start stop = on_list (ok [], none) (λ l t. (ok (between start stop l), some (list l, t)))

-- LRANGE returns, in their order, the elements whose position is not before the first index and
-- not behind the second one, where -1 is the last position; nothing for a missing key, WRONGTYPE
-- for another type; the view stays. A key whose deadline has passed at the first reading of the
-- clock counts as missing; the view of every other key stays.
pub list_range-Refines :
    (k : Bytes) (start stop : ℤ) (db : Database)
    → Refines k db
        (cell_range start stop (settle (time db) (content k db)))
        (list_range k start stop db)
unfolding list_range
list_range-Refines k start stop =
    refine_live k (cell_range start stop) _ (λ db e. Refines-nothing (ap content_of e))
      λ e db found.
        refine_list k (ok [], none) _ _
          (λ l t db' h.
            rw (← ranged-between start stop l)
              elim (Option-cases (range_bounds (length l) start stop)) [
                | inl nothing ↦ rw nothing (Refines-nothing h)
                | inr ((first, last), some_range) ↦
                    rw some_range (unfold touch in Refines-same (λ j. refl) h)
              ])
          e db (ap content_of found)

abbrev pub indexed : List Bytes → Option ℕ → Option Bytes
indexed l none = none
indexed l (some i) = get_elem? l i

abbrev pub cell_index : ℤ → Cell → Outcome (Option Bytes) × Cell
cell_index index =
    on_list (ok none, none) (λ l t. (ok (indexed l (index_of (length l) index)), some (list l, t)))

-- LINDEX returns the element at the index, a negative one counted from the end; nothing for a
-- missing key or an index outside the list, WRONGTYPE for another type; the view stays. A key
-- whose deadline has passed at the first reading of the clock counts as missing; the view of every
-- other key stays.
pub list_index-Refines :
    (k : Bytes) (index : ℤ) (db : Database)
    → Refines k db (cell_index index (settle (time db) (content k db))) (list_index k index db)
unfolding list_index
list_index-Refines k index =
    refine_live k (cell_index index) _ (λ db e. Refines-nothing (ap content_of e))
      λ e db found.
        refine_list k (ok none, none) _ _
          (λ l t db' h. elim (Option-cases (index_of (length l) index)) [
            | inl nothing ↦ rw nothing (Refines-nothing h)
            | inr (i, inside) ↦ rw inside (unfold touch in Refines-same (λ j. refl) h)
          ])
          e db (ap content_of found)

abbrev pub cell_list_length : Cell → Outcome ℕ × Cell
cell_list_length = on_list (ok 0, none) (λ l t. (ok (length l), some (list l, t)))

pub list_length-Refines :
    (k : Bytes) (db : Database)
    → Refines k db (cell_list_length (settle (time db) (content k db))) (list_length k db)
unfolding list_length
list_length-Refines k =
    refine_live k cell_list_length _ (λ db e. Refines-nothing (ap content_of e))
      λ e db found.
        refine_list k (ok 0, none) _ _ (λ l t db' h. Refines-nothing h) e db (ap content_of found)
