-- ===== src/Database/Refine/Sorting.antt =====
-- What a sorted listing promises, described without the code: the order of byte strings, ascending
-- lists, and permutations.
use mathlib.Core.List.{Perm}
use mathlib.Core.List.Perm
use flash_kv.Common.{
  ◌<◌, ◌≡◌, refl, ap, ◌∙◌, arith, true, false, ◌⊎◌, inl, inr, List, [], ◌∷◌, Bytes, Bool-cases,
  Assoc,
}
use flash_kv.Database.Hashes.{before, insert_sorted, sort, insert_field, sort_fields}

-- The first byte at which two texts differ decides, and a beginning of a text comes before it.
abbrev pub AtMost : Bytes → Bytes → Type 0
AtMost [] t = Unit {0}
AtMost (a ∷ s) [] = ⊥
AtMost (a ∷ s) (b ∷ t) = (a < b) ⊎ ((a ≡ b) × AtMost s t)

-- Each text is at most its successor.
abbrev pub IsAscending : List Bytes → Type 0
IsAscending [] = Unit {0}
IsAscending (x ∷ []) = Unit {0}
IsAscending (x ∷ y ∷ l) = AtMost x y × IsAscending (y ∷ l)

before-AtMost : (s t : Bytes) → before s t ≡ true → AtMost s t
unfolding before
before-AtMost [] t h = tt
before-AtMost (a ∷ s) [] h = ground (arith, h)
before-AtMost (a ∷ s) (b ∷ t) h = elim (Bool-cases (before s t)) [
  | inl less ↦ let rest = before-AtMost s t less in ground (arith, h, rest)
  | inr more ↦ inl (ground (arith, h, more))
]

not_before-AtMost : (s t : Bytes) → before s t ≡ false → AtMost t s
unfolding before
not_before-AtMost s [] h = tt
not_before-AtMost [] (b ∷ t) h = ground (arith, h)
not_before-AtMost (a ∷ s) (b ∷ t) h = elim (Bool-cases (before s t)) [
  | inl less ↦ inl (ground (arith, h, less))
  | inr more ↦ let rest = not_before-AtMost s t more in ground (arith, h, rest)
]

-- Behind an element that is at most `k` and the head.
behind :
    (j k : Bytes) (l : List Bytes)
    → AtMost j k
    → IsAscending (j ∷ l)
    → IsAscending (insert_sorted k l)
    → IsAscending (j ∷ insert_sorted k l)
unfolding insert_sorted
behind j k [] le h rest = (le, tt)
behind j k (m ∷ l) le h rest = elim (Bool-cases (before m k)) [
  | inl first ↦ rw first (h.0, rw first at rest)
  | inr later ↦ rw later (le, rw later at rest)
]

tail-IsAscending : (j : Bytes) (l : List Bytes) → IsAscending (j ∷ l) → IsAscending l
tail-IsAscending j [] h = tt
tail-IsAscending j (m ∷ l) h = h.1

insert_sorted-IsAscending :
    (k : Bytes) (l : List Bytes) → IsAscending l → IsAscending (insert_sorted k l)
unfolding insert_sorted
insert_sorted-IsAscending k [] h = tt
insert_sorted-IsAscending k (j ∷ l) h = elim (Bool-cases (before j k)) [
  | inl first ↦ rw first (
      behind j k l (before-AtMost j k first) h
        (insert_sorted-IsAscending k l (tail-IsAscending j l h)))
  | inr later ↦ rw later (not_before-AtMost j k later, h)
]

pub sort-IsAscending : (l : List Bytes) → IsAscending (sort l)
unfolding sort
sort-IsAscending [] = tt
sort-IsAscending (k ∷ l) = insert_sorted-IsAscending k (sort l) (sort-IsAscending l)

insert_sorted-perm : (k : Bytes) (l : List Bytes) → Perm (insert_sorted k l) (k ∷ l)
unfolding insert_sorted
insert_sorted-perm k [] = Perm.refl (k ∷ [])
insert_sorted-perm k (j ∷ l) = elim (Bool-cases (before j k)) [
  | inl first ↦ rw first (Perm.trans (Perm.cons j (insert_sorted-perm k l)) (Perm.swap k j l))
  | inr later ↦ rw later (Perm.refl (k ∷ j ∷ l))
]

pub sort-perm : (l : List Bytes) → Perm (sort l) l
unfolding sort
sort-perm [] = Perm.refl []
sort-perm (k ∷ l) = Perm.trans (insert_sorted-perm k (sort l)) (Perm.cons k (sort-perm l))

abbrev pub fields_of : Assoc Bytes → List Bytes
fields_of [] = []
fields_of ((f, v) ∷ h) = f ∷ fields_of h

fields_of-insert_field :
    (f v : Bytes) (h : Assoc Bytes)
    → fields_of (insert_field (f, v) h) ≡ insert_sorted f (fields_of h)
unfolding insert_field insert_sorted
fields_of-insert_field f v [] = refl
fields_of-insert_field f v ((g, w) ∷ h) = elim (Bool-cases (before g f)) [
  | inl first ↦ rw first (ap (λ r. g ∷ r) (fields_of-insert_field f v h))
  | inr later ↦ rw later refl
]

fields_of-sort_fields : (h : Assoc Bytes) → fields_of (sort_fields h) ≡ sort (fields_of h)
unfolding sort_fields sort
fields_of-sort_fields [] = refl
fields_of-sort_fields ((f, v) ∷ h) =
    fields_of-insert_field f v (sort_fields h) ∙ ap (insert_sorted f) (fields_of-sort_fields h)

pub sort_fields-IsAscending : (h : Assoc Bytes) → IsAscending (fields_of (sort_fields h))
sort_fields-IsAscending h = rw (fields_of-sort_fields h) (sort-IsAscending (fields_of h))

insert_field-perm : (f v : Bytes) (h : Assoc Bytes) → Perm (insert_field (f, v) h) ((f, v) ∷ h)
unfolding insert_field
insert_field-perm f v [] = Perm.refl ((f, v) ∷ [])
insert_field-perm f v ((g, w) ∷ h) = elim (Bool-cases (before g f)) [
  | inl first ↦
      rw first (Perm.trans (Perm.cons (g, w) (insert_field-perm f v h)) (Perm.swap (f, v) (g, w) h))
  | inr later ↦ rw later (Perm.refl ((f, v) ∷ (g, w) ∷ h))
]

pub sort_fields-perm : (h : Assoc Bytes) → Perm (sort_fields h) h
unfolding sort_fields
sort_fields-perm [] = Perm.refl []
sort_fields-perm ((f, v) ∷ h) =
    Perm.trans (insert_field-perm f v (sort_fields h)) (Perm.cons (f, v) (sort_fields-perm h))
