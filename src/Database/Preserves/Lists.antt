-- ===== src/Database/Preserves/Lists.antt =====
-- List operations keep the invariant.
use flash_kv.Common.{
  ◌+◌, ◌≡◌, refl, some, List, [], ◌∷◌, ◌++◌, arith, Bytes, Option-cases, inl, inr, length, back?,
  drop_last,
}
use flash_kv.Common.Int.{ℤ}
use flash_kv.Common.Exec.{ok}
use flash_kv.Database.State.{
  Database, ListSide, left, right, Value, list, list_cost, element_cost, payload_memory,
}
use flash_kv.Database.Lists.{
  pushed, push_value, push_loop, list_push, popped, pop_value, keep_or_drop, list_pop, range_bounds,
  list_range, index_of, list_index, list_length,
}
use flash_kv.Database.Invariant.{IsWellFormed}
use flash_kv.Database.Invariant.Values.{Holds, grow-Holds, shrink-Holds}
use flash_kv.Database.Typed.{
  Sound, list_cases, touch_held, erase_held, found_induction, acquired_induction,
}

list_cost-append : (l m : List Bytes) → list_cost (l ++ m) ≡ list_cost l + list_cost m
unfolding list_cost
list_cost-append [] m = omega arith
list_cost-append (v ∷ l) m = omega (arith, list_cost-append l m)

list_cost-pushed :
    (side : ListSide) (v : Bytes) (l : List Bytes)
    → list_cost (pushed side v l) ≡ list_cost l + element_cost v
unfolding list_cost
list_cost-pushed left v l = omega arith
list_cost-pushed right v l = omega (arith, list_cost-append l (v ∷ []))

list_cost-drop_last :
    (l : List Bytes) {v : Bytes}
    → back? l ≡ some v
    → list_cost (drop_last l) + element_cost v ≡ list_cost l
unfolding list_cost
list_cost-drop_last [] h = ground arith
list_cost-drop_last (x ∷ []) h = ground arith
list_cost-drop_last (x ∷ y ∷ l) {v} h = omega (arith, list_cost-drop_last (y ∷ l) {v = v} h)

pub list_cost-popped :
    (side : ListSide) (l : List Bytes) {v : Bytes} {rest : List Bytes}
    → popped side l ≡ some (v, rest)
    → list_cost rest + element_cost v ≡ list_cost l
unfolding list_cost popped
list_cost-popped left [] e = ground arith
list_cost-popped left (x ∷ l) e = ground arith
list_cost-popped right l {v} {rest} e = ground (arith, list_cost-drop_last l {v = v})

push_value-Holds :
    (k : Bytes) (side : ListSide) (v : Bytes) (l : List Bytes) {db : Database}
    → Holds k (list l) db
    → Holds k (list (pushed side v l)) (push_value k side v l db)
unfolding push_value payload_memory
push_value-Holds k side v l =
    grow-Holds k (list l) (list (pushed side v l)) (element_cost v) (list_cost-pushed side v l) tt

-- The list behind the loop of `listPush`.
unfoldable pub pushed_all : ListSide → List Bytes → List Bytes → List Bytes
pushed_all side [] l = l
pushed_all side (v ∷ values) l = pushed_all side values (pushed side v l)

-- The loop returns, with the list that it has stored.
pub push_loop-Holds :
    (k : Bytes) (side : ListSide) (values l : List Bytes) {db : Database}
    → Holds k (list l) db
    → ((push_loop k side values l db).0 ≡ ok (pushed_all side values l))
      × Holds k (list (pushed_all side values l)) (push_loop k side values l db).1
unfolding push_loop pushed_all
push_loop-Holds k side [] l h = (refl, h)
push_loop-Holds k side (v ∷ values) l h =
    push_loop-Holds k side values (pushed side v l) (push_value-Holds k side v l h)

pub list_push-IsWellFormed :
    (k : Bytes) (values : List Bytes) (side : ListSide) (db : Database)
    → IsWellFormed db
    → IsWellFormed (list_push k values side db).1
unfolding list_push
list_push-IsWellFormed k values side db w =
    acquired_induction k db w Sound (list []) _ tt λ e db' h.
      list_cases Sound e db' h.well_formed _ λ l eq.
        let (returns, held) = push_loop-Holds k side values l (rw eq at h) in
        rw returns (touch_held k held)

pop_value-Holds :
    (k : Bytes) (side : ListSide) (v : Bytes) (l rest : List Bytes) {db : Database}
    → popped side l ≡ some (v, rest)
    → Holds k (list l) db
    → Holds k (list rest) (pop_value k v rest db)
unfolding pop_value payload_memory
pop_value-Holds k side v l rest e =
    shrink-Holds k (list l) (list rest) (element_cost v) (list_cost-popped side l e) tt

keep_or_drop_held :
    (k : Bytes) (l : List Bytes) {v : Value} {db : Database}
    → Holds k v db
    → IsWellFormed (keep_or_drop k l db)
keep_or_drop_held k [] h = erase_held k h
keep_or_drop_held k (_ ∷ _) h = touch_held k h

pub list_pop-IsWellFormed :
    (k : Bytes) (side : ListSide) (db : Database)
    → IsWellFormed db
    → IsWellFormed (list_pop k side db).1
unfolding list_pop
list_pop-IsWellFormed k side db w =
    found_induction k db w Sound _ (λ db' w'. w')
      λ e db' h. list_cases Sound e db' h.well_formed _ λ l eq.
        elim (Option-cases (popped side l)) [
          | inl nothing ↦ rw nothing h.well_formed
          | inr ((v, rest), taken) ↦
              rw taken
                (keep_or_drop_held k rest (pop_value-Holds k side v l rest taken (rw eq at h)))
        ]

pub list_range-IsWellFormed :
    (k : Bytes) (start stop : ℤ) (db : Database)
    → IsWellFormed db
    → IsWellFormed (list_range k start stop db).1
unfolding list_range
list_range-IsWellFormed k start stop db w =
    found_induction k db w Sound _ (λ db' w'. w')
      λ e db' h. list_cases Sound e db' h.well_formed _ λ l eq.
        elim (Option-cases (range_bounds (length l) start stop)) [
          | inl nothing ↦ rw nothing h.well_formed
          | inr (bounds, some_range) ↦ rw some_range (touch_held k h)
        ]

pub list_index-IsWellFormed :
    (k : Bytes) (index : ℤ) (db : Database)
    → IsWellFormed db
    → IsWellFormed (list_index k index db).1
unfolding list_index
list_index-IsWellFormed k index db w =
    found_induction k db w Sound _ (λ db' w'. w')
      λ e db' h. list_cases Sound e db' h.well_formed _ λ l eq.
        elim (Option-cases (index_of (length l) index)) [
          | inl nothing ↦ rw nothing h.well_formed
          | inr (i, inside) ↦ rw inside (touch_held k h)
        ]

pub list_length-IsWellFormed :
    (k : Bytes) (db : Database) → IsWellFormed db → IsWellFormed (list_length k db).1
unfolding list_length
list_length-IsWellFormed k db w =
    found_induction k db w Sound _ (λ db' w'. w')
      (λ e db' h. list_cases Sound e db' h.well_formed _ (λ l _. h.well_formed))
