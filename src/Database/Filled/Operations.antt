-- ===== src/Database/Filled/Operations.antt =====
-- src/database.cpp: the operations on values are safe.
use flash_kv.Common.{
  ◌≡◌, refl, true, false, Option, none, some, List, [], ◌∷◌, arith, Bytes, codes, Option-cases,
  Bool-cases, inl, inr, back?, drop_last,
}
use flash_kv.Common.Int.{ℤ, eqb_ℤ}
use flash_kv.Common.Exec.{ok}
use flash_kv.Database.State.{ListSide, left, right, no_expiry, list}
use flash_kv.Database.Strings.{del, exists, type_of, set, get, increment_by, append, string_length}
use flash_kv.Database.Expiry.{persist}
use flash_kv.Database.Lists.{
  pushed, list_push, popped, list_pop, list_range, list_index, list_length,
}
use flash_kv.Database.Preserves.Strings.{
  del-IsWellFormed, exists-IsWellFormed, type_of-IsWellFormed, set-IsWellFormed, get-IsWellFormed,
  increment_by-IsWellFormed, append-IsWellFormed, string_length-IsWellFormed,
}
use flash_kv.Database.Preserves.Expiry.{persist-IsWellFormed}
use flash_kv.Database.Preserves.Lists.{
  pushed_all, list_push-IsWellFormed, list_pop-IsWellFormed, list_range-IsWellFormed,
  list_index-IsWellFormed, list_length-IsWellFormed,
}
use flash_kv.Database.Refine.{Cell}
use flash_kv.Database.Refine.Strings.{
  cell_del, del-Refines, cell_exists, exists-Refines, cell_type, type_of-Refines, cell_set,
  set-Refines, cell_get, get-Refines, cell_append, append-Refines, incremented, summed,
  cell_increment, increment_by_print, cell_persist, persist-Refines, cell_string_length,
  string_length-Refines,
}
use flash_kv.Database.Refine.Lists.{
  cell_push, list_push-Refines, rest_cell, cell_pop, list_pop-Refines, cell_range,
  list_range-Refines, cell_index, list_index-Refines, cell_list_length, list_length-Refines,
}
use flash_kv.Common.Decimal.{to_string_ℤ}
use flash_kv.Database.Refine.Numerals.{integer, exact_sum}
use flash_kv.Database.Refine.Ends.{extended, pushed_all-extended, popped-end_of}
use flash_kv.Database.Filled.{
  HasElements, IsFilled, IsGood, IsSafe, Refines-IsSafe, ok-ne-undefined, on_string-IsGood,
  on_list-IsGood,
}

-- An operation that returns.
abbrev fine : {A : Type 0} (a : A) (c : Cell) → IsFilled c → IsGood (ok a, c)
fine a c h = (ok-ne-undefined a, h)

module _ (k : Bytes) where
  pub del-IsSafe : IsSafe (del k)
  del-IsSafe = Refines-IsSafe k cell_del (del k) (del-IsWellFormed k) good (del-Refines k)
    where
      good : (c : Cell) → IsFilled c → IsGood (cell_del c)
      good none h = fine false none tt
      good (some c) h = fine true none tt

  pub exists-IsSafe : IsSafe (exists k)
  exists-IsSafe =
      Refines-IsSafe k cell_exists (exists k) (exists-IsWellFormed k) good (exists-Refines k)
    where
      good : (c : Cell) → IsFilled c → IsGood (cell_exists c)
      good none h = fine false none tt
      good (some c) h = fine true (some c) h

  pub type_of-IsSafe : IsSafe (type_of k)
  type_of-IsSafe =
      Refines-IsSafe k cell_type (type_of k) (type_of-IsWellFormed k) good (type_of-Refines k)
    where
      good : (c : Cell) → IsFilled c → IsGood (cell_type c)
      good none h = (ok-ne-undefined _, tt)
      good (some (v, t)) h = (ok-ne-undefined _, h)

  pub set-IsSafe : (v : Bytes) → IsSafe (set k v)
  set-IsSafe v =
      Refines-IsSafe k (cell_set v) (set k v) (set-IsWellFormed k v)
        (λ c h. (ok-ne-undefined _, tt)) (set-Refines k v)

  pub get-IsSafe : IsSafe (get k)
  get-IsSafe =
      Refines-IsSafe k cell_get (get k) (get-IsWellFormed k)
        (on_string-IsGood (ok none, none) (ok-ne-undefined _, tt) _
          (λ text t. (ok-ne-undefined _, tt)))
        (get-Refines k)

  pub string_length-IsSafe : IsSafe (string_length k)
  string_length-IsSafe =
      Refines-IsSafe k cell_string_length (string_length k) (string_length-IsWellFormed k)
        (on_string-IsGood (ok 0, none) (ok-ne-undefined _, tt) _
          (λ text t. (ok-ne-undefined _, tt)))
        (string_length-Refines k)

  pub append-IsSafe : (v : Bytes) → IsSafe (append k v)
  append-IsSafe v =
      Refines-IsSafe k (cell_append v) (append k v) (append-IsWellFormed k v)
        (on_string-IsGood _ (ok-ne-undefined _, tt) _ (λ text t. (ok-ne-undefined _, tt)))
        (append-Refines k v)

  pub persist-IsSafe : IsSafe (persist k)
  persist-IsSafe =
      Refines-IsSafe k cell_persist (persist k) (persist-IsWellFormed k) good (persist-Refines k)
    where
      good : (c : Cell) → IsFilled c → IsGood (cell_persist c)
      good none h = (ok-ne-undefined _, tt)
      good (some (v, t)) h = elim (Bool-cases (eqb_ℤ t no_expiry)) [
        | inl never ↦ rw never (ok-ne-undefined _, h)
        | inr timed ↦ rw timed (ok-ne-undefined _, h)
      ]

summed-IsGood : (text : Bytes) (t : ℤ) (o : Option ℤ) → IsGood (summed to_string_ℤ text t o)
summed-IsGood text t none = (λ e. ground (arith, e), tt)
summed-IsGood text t (some result) = (ok-ne-undefined _, tt)

incremented-IsGood :
    (delta : ℤ) (text : Bytes) (t : ℤ) (o : Option ℤ)
    → IsGood (incremented to_string_ℤ delta text t o)
incremented-IsGood delta text t none = (λ e. ground (arith, e), tt)
incremented-IsGood delta text t (some current) = summed-IsGood text t (exact_sum current delta)

pub increment_by-IsSafe : (k : Bytes) (delta : ℤ) → IsSafe (increment_by k delta)
increment_by-IsSafe k delta =
    Refines-IsSafe k (cell_increment to_string_ℤ delta) (increment_by k delta)
      (increment_by-IsWellFormed k delta)
      (on_string-IsGood _ (incremented-IsGood delta (codes "0") no_expiry (integer (codes "0"))) _
        (λ text t. incremented-IsGood delta text t (integer text)))
      (increment_by_print k delta)

pushed-HasElements :
    (side : ListSide) (v : Bytes) (l : List Bytes) → HasElements (list (pushed side v l))
pushed-HasElements left v l = tt
pushed-HasElements right v [] = tt
pushed-HasElements right v (x ∷ l) = tt

pushed_all-HasElements :
    (side : ListSide) (values l : List Bytes)
    → HasElements (list l)
    → HasElements (list (pushed_all side values l))
unfolding pushed_all
pushed_all-HasElements side [] l h = h
pushed_all-HasElements side (v ∷ values) l h =
    pushed_all-HasElements side values (pushed side v l) (pushed-HasElements side v l)

pub list_push-IsSafe :
    (k v : Bytes) (values : List Bytes) (side : ListSide) → IsSafe (list_push k (v ∷ values) side)
list_push-IsSafe k v values side =
    Refines-IsSafe k (cell_push side (v ∷ values)) (list_push k (v ∷ values) side)
      (list_push-IsWellFormed k (v ∷ values) side)
      (on_list-IsGood _ (ok-ne-undefined _, stored []) _
        (λ x l t. (ok-ne-undefined _, stored (x ∷ l))))
      (list_push-Refines k (v ∷ values) side)
  where
    stored : (l : List Bytes) → HasElements (list (extended side (v ∷ values) l))
    stored l = rw (← pushed_all-extended side (v ∷ values) l) (
        unfold pushed_all in
        pushed_all-HasElements side values (pushed side v l) (pushed-HasElements side v l))

popped-some :
    (side : ListSide) (v : Bytes) (l : List Bytes)
    → (r : Bytes × List Bytes) × (popped side (v ∷ l) ≡ some r)
unfolding popped
popped-some left v l = ((v, l), refl)
popped-some right v [] = ((v, []), refl)
popped-some right v (x ∷ l) =
    let ((w, rest), e) = popped-some right x l in
    elim (Option-cases (back? (x ∷ l))) [
      | inl n ↦ absurd (ground (arith, e, n))
      | inr (u, last) ↦ ((u, v ∷ drop_last (x ∷ l)), rw (last, popped))
    ]

rest_cell-IsFilled : (l : List Bytes) (t : ℤ) → IsFilled (rest_cell l t)
rest_cell-IsFilled [] t = tt
rest_cell-IsFilled (v ∷ l) t = tt

pub list_pop-IsSafe : (k : Bytes) (side : ListSide) → IsSafe (list_pop k side)
list_pop-IsSafe k side =
    Refines-IsSafe k (cell_pop side) (list_pop k side) (list_pop-IsWellFormed k side)
      (on_list-IsGood (ok none, none) (ok-ne-undefined _, tt) _
        (λ v l t.
          let ((x, rest), e) = popped-some side v l in
          rw (← popped-end_of side (v ∷ l), e)
            (ok-ne-undefined (some x), rest_cell-IsFilled rest t)))
      (list_pop-Refines k side)

module _ (k : Bytes) where
  pub list_range-IsSafe : (start stop : ℤ) → IsSafe (list_range k start stop)
  list_range-IsSafe start stop =
      Refines-IsSafe k (cell_range start stop) _ (list_range-IsWellFormed k start stop)
        (on_list-IsGood _ (ok-ne-undefined _, tt) _ (λ v l t. (ok-ne-undefined _, tt)))
        (list_range-Refines k start stop)

  pub list_index-IsSafe : (i : ℤ) → IsSafe (list_index k i)
  list_index-IsSafe i =
      Refines-IsSafe k (cell_index i) _ (list_index-IsWellFormed k i)
        (on_list-IsGood _ (ok-ne-undefined _, tt) _ (λ v l t. (ok-ne-undefined _, tt)))
        (list_index-Refines k i)

  pub list_length-IsSafe : IsSafe (list_length k)
  list_length-IsSafe =
      Refines-IsSafe k cell_list_length _ (list_length-IsWellFormed k)
        (on_list-IsGood _ (ok-ne-undefined _, tt) _ (λ v l t. (ok-ne-undefined _, tt)))
        (list_length-Refines k)
