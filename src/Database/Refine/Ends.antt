-- ===== src/Database/Refine/Ends.antt =====
-- What the list operations promise, described without the code: both ends of a list, and the
-- elements between two positions.
use mathlib.Core.List.{reverse, reverse-cons, reverse-reverse}
use flash_kv.Common.{
  ℕ, zero, suc, ◌+◌, ◌-◌, ◌≤◌, ◌<◌, ◌≡◌, refl, sym, ap, ◌∙◌, arith, Bool, false, ◌&&◌, Option, none,
  some, List, [], ◌∷◌, ◌++◌, append_assoc, append-nil, Bytes, if◌then◌else◌, leb, length, take,
  drop, back?, drop_last, Bool-cases, inl, inr,
}
use flash_kv.Common.Int.{ℤ, pos, negsuc, ◌+ℤ◌, ◌-ℤ◌}
use flash_kv.Database.State.{ListSide, left, right}
use flash_kv.Database.Lists.{popped, range_bounds}
use flash_kv.Database.Preserves.Lists.{pushed_all}

-- The last of the values comes first, or the values follow in their order.
abbrev pub extended : ListSide → List Bytes → List Bytes → List Bytes
extended left values l = reverse values ++ l
extended right values l = l ++ values

pub pushed_all-extended :
    (side : ListSide) (values l : List Bytes) → pushed_all side values l ≡ extended side values l
unfolding pushed_all
pushed_all-extended left [] l = refl
pushed_all-extended left (v ∷ values) l =
    pushed_all-extended left values (v ∷ l)
    ∙ sym (append_assoc (reverse values) (v ∷ []) l)
    ∙ ap (λ r. r ++ l) (sym (reverse-cons v values))
pushed_all-extended right [] l = sym (append-nil l)
pushed_all-extended right (v ∷ values) l =
    pushed_all-extended right values (l ++ v ∷ []) ∙ append_assoc l (v ∷ []) values

abbrev pub first_of : List Bytes → Option (Bytes × List Bytes)
first_of [] = none
first_of (v ∷ l) = some (v, l)

-- The last element is the first of the reversed list.
abbrev pub last_of : List Bytes → Option (Bytes × List Bytes)
last_of [] = none
last_of (v ∷ l) = some (v, reverse l)

abbrev pub end_of : ListSide → List Bytes → Option (Bytes × List Bytes)
end_of left l = first_of l
end_of right l = last_of (reverse l)

back?-append : (l : List Bytes) (v : Bytes) → back? (l ++ v ∷ []) ≡ some v
back?-append [] v = refl
back?-append (x ∷ []) v = refl
back?-append (x ∷ y ∷ l) v = back?-append (y ∷ l) v

drop_last-append : (l : List Bytes) (v : Bytes) → drop_last (l ++ v ∷ []) ≡ l
drop_last-append [] v = refl
drop_last-append (x ∷ []) v = refl
drop_last-append (x ∷ y ∷ l) v = ap (λ r. x ∷ r) (drop_last-append (y ∷ l) v)

popped-append : (l : List Bytes) (v : Bytes) → popped right (l ++ v ∷ []) ≡ some (v, l)
unfolding popped
popped-append [] v = refl
popped-append (x ∷ l) v =
    rw (back?-append (x ∷ l) v) (ap (λ r. some (v, r)) (drop_last-append (x ∷ l) v))

popped-reverse : (r : List Bytes) → popped right (reverse r) ≡ last_of r
popped-reverse [] = unfold popped in refl
popped-reverse (v ∷ r) = ap (popped right) (reverse-cons v r) ∙ popped-append (reverse r) v

pub popped-end_of : (side : ListSide) (l : List Bytes) → popped side l ≡ end_of side l
popped-end_of left [] = unfold popped in refl
popped-end_of left (v ∷ l) = unfold popped in refl
popped-end_of right l = ap (popped right) (sym (reverse-reverse l)) ∙ popped-reverse (reverse l)

-- Whether position `i` of `n` is not before the index, and not behind it; -1 is the last position.
abbrev pub not_before : ℕ → ℤ → ℕ → Bool
not_before n (pos start) i = leb start i
not_before n (negsuc start) i = leb n (i + start + 1)

abbrev pub not_behind : ℕ → ℤ → ℕ → Bool
not_behind n (pos stop) i = leb i stop
not_behind n (negsuc stop) i = leb (i + stop + 1) n

-- The elements at the positions from `i` on that pass the test.
abbrev pub kept {ℓ} : {A : Type ℓ} → (ℕ → Bool) → ℕ → List A → List A
kept test i [] = []
kept test i (v ∷ l) = let rest = kept test (suc i) l in if test i then v ∷ rest else rest

abbrev pub between {ℓ} : {A : Type ℓ} → ℤ → ℤ → List A → List A
between start stop l = kept (λ i. not_before (length l) start i && not_behind (length l) stop i) 0 l

module _ {ℓ} {A : Type ℓ} where
  kept-same :
      (f g : ℕ → Bool) (n i : ℕ) (l : List A)
      → ((j : ℕ) → j < n → f j ≡ g j)
      → i + length l ≤ n
      → kept f i l ≡ kept g i l
  kept-same f g n i [] same short = refl
  kept-same f g n i (v ∷ l) same short =
      let inside : i < n = omega (arith, short) in
      let rest = kept-same f g n (suc i) l same (omega (arith, short)) in
      rw (same i inside, rest) refl

  kept-never : (i : ℕ) (l : List A) → kept (λ j. false) i l ≡ []
  kept-never i [] = refl
  kept-never i (v ∷ l) = kept-never (suc i) l

  take-nil : (n : ℕ) → take {A = A} n [] ≡ []
  take-nil zero = refl
  take-nil (suc n) = refl

  drop-nil : (n : ℕ) → drop {A = A} n [] ≡ []
  drop-nil zero = refl
  drop-nil (suc n) = refl

  kept-range :
      (first last i : ℕ) (l : List A)
      → kept (λ j. leb first j && leb j last) i l
        ≡ take (last + 1 - (i + (first - i))) (drop (first - i) l)
  kept-range first last i [] =
      rw (drop-nil (first - i)) (sym (take-nil (last + 1 - (i + (first - i)))))
  kept-range first last i (v ∷ l) = elim (Bool-cases (leb first i)) [
    | inl from ↦
        let here : first - i ≡ 0 = ground (arith, from) in
        let next : first - suc i ≡ 0 = ground (arith, from) in
        elim (Bool-cases (leb i last)) [
          | inl to ↦
              let count : last + 1 - (i + 0) ≡ suc (last + 1 - (suc i + 0)) = ground (arith, to) in
              let rest : kept (λ j. leb first j && leb j last) (suc i) l
                  ≡ take (last + 1 - (suc i + 0)) l =
                kept-range first last (suc i) l
                ∙ ap (λ m. take (last + 1 - (suc i + m)) (drop m l)) next in
              rw (from, to, here, count) (ap (λ r. v ∷ r) rest)
          | inr over ↦
              let count : last + 1 - (i + 0) ≡ 0 = ground (arith, over) in
              let none_left : last + 1 - (suc i + 0) ≡ 0 = ground (arith, over) in
              let rest : kept (λ j. leb first j && leb j last) (suc i) l ≡ [] =
                kept-range first last (suc i) l
                ∙ ap (λ m. take (last + 1 - (suc i + m)) (drop m l)) next
                ∙ ap (λ m. take m l) none_left in
              rw (from, over, here, count) rest
        ]
    | inr early ↦
        let skip : first - i ≡ suc (first - suc i) = ground (arith, early) in
        let same : i + suc (first - suc i) ≡ suc i + (first - suc i) = omega arith in
        rw (early, skip, same) (kept-range first last (suc i) l)
  ]

abbrev within_bounds : Option (ℕ × ℕ) → ℕ → Bool
within_bounds none j = false
within_bounds (some (first, last)) j = leb first j && leb j last

bounds_test :
    (n : ℕ) (start stop : ℤ) (j : ℕ)
    → j < n
    → (not_before n start j && not_behind n stop j) ≡ within_bounds (range_bounds n start stop) j
unfolding range_bounds ◌+ℤ◌ ◌-ℤ◌
bounds_test n (pos a) (pos b) j h = ground arith
bounds_test n (pos a) (negsuc b) j h = ground arith
bounds_test n (negsuc a) (pos b) j h = ground arith
bounds_test n (negsuc a) (negsuc b) j h = ground arith

-- The elements between the bounds of the code are those between the two indices.
abbrev pub ranged : List Bytes → Option (ℕ × ℕ) → List Bytes
ranged l none = []
ranged l (some (first, last)) = take (last + 1 - first) (drop first l)

kept-ranged :
    (l : List Bytes) (bounds : Option (ℕ × ℕ)) → kept (within_bounds bounds) 0 l ≡ ranged l bounds
kept-ranged l none = kept-never 0 l
kept-ranged l (some (first, last)) =
    let same : 0 + first ≡ first = omega arith in
    let whole : first - 0 ≡ first = omega arith in
    kept-range first last 0 l
    ∙ ap (λ m. take (last + 1 - (0 + m)) (drop m l)) whole
    ∙ ap (λ m. take (last + 1 - m) (drop first l)) same

pub ranged-between :
    (start stop : ℤ) (l : List Bytes)
    → ranged l (range_bounds (length l) start stop) ≡ between start stop l
ranged-between start stop l = sym (
    kept-same _ (within_bounds (range_bounds (length l) start stop)) (length l) 0 l
      (bounds_test (length l) start stop) (omega arith)
    ∙ kept-ranged l (range_bounds (length l) start stop))
