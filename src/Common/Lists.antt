-- ===== src/Common/Lists.antt =====
-- Lists measured and indexed by native numbers, under the library's names.
use Prim.Native.Nat.{ℕ, zero, suc, ◌+◌, ◌-◌, ◌<◌}
use mathlib.Core.Path.{◌≡◌, refl, ap}
use mathlib.Core.Logic.{◌≢◌}
use mathlib.Core.Bool.{Bool, true, false, ◌&&◌}
use mathlib.Core.List.{List, [], ◌∷◌, ◌++◌}
use mathlib.Core.Option.{Option, none, some}
use native.Mathlib.Omega.{arith}
use flash_kv.Common.Tests.{ltb, ◌==◌, if◌then◌else◌}

module _ {ℓ} {A : Type ℓ} where
  abbrev pub length : List A → ℕ
  length [] = 0
  length (x ∷ xs) = suc (length xs)

  abbrev pub is_empty : List A → Bool
  is_empty [] = true
  is_empty (x ∷ xs) = false

  abbrev pub get_elem? : List A → ℕ → Option A
  get_elem? [] i = none
  get_elem? (x ∷ xs) zero = some x
  get_elem? (x ∷ xs) (suc i) = get_elem? xs i

  -- A write out of bounds changes nothing.
  abbrev pub set : List A → ℕ → A → List A
  set [] i v = []
  set (x ∷ xs) zero v = v ∷ xs
  set (x ∷ xs) (suc i) v = x ∷ set xs i v

  abbrev pub take : ℕ → List A → List A
  take zero xs = []
  take (suc n) [] = []
  take (suc n) (x ∷ xs) = x ∷ take n xs

  abbrev pub drop : ℕ → List A → List A
  drop zero xs = xs
  drop (suc n) [] = []
  drop (suc n) (x ∷ xs) = drop n xs

  -- `back()` of a container, `none` where it is empty.
  abbrev pub back? : List A → Option A
  back? [] = none
  back? (x ∷ []) = some x
  back? (x ∷ y ∷ xs) = back? (y ∷ xs)

  -- `pop_back()`.
  abbrev pub drop_last : List A → List A
  drop_last [] = []
  drop_last (x ∷ []) = []
  drop_last (x ∷ y ∷ xs) = x ∷ drop_last (y ∷ xs)

module _ {ℓ} {A : Type ℓ} where
  pub length-append : (xs ys : List A) → length (xs ++ ys) ≡ length xs + length ys
  length-append [] ys = omega arith
  length-append (x ∷ xs) ys = omega (arith, length-append xs ys)

  pub length-set : (xs : List A) (i : ℕ) (v : A) → length (set xs i v) ≡ length xs
  length-set [] i v = refl
  length-set (x ∷ xs) zero v = refl
  length-set (x ∷ xs) (suc i) v = ap suc (length-set xs i v)

  pub length-drop_last : (xs : List A) → length (drop_last xs) ≡ length xs - 1
  length-drop_last [] = omega arith
  length-drop_last (x ∷ []) = omega arith
  length-drop_last (x ∷ y ∷ xs) = omega (arith, length-drop_last (y ∷ xs))

  pub get_elem?-set :
      (xs : List A) (i j : ℕ) (v : A)
      → get_elem? (set xs i v) j
        ≡ (if (i == j) && ltb j (length xs) then some v else get_elem? xs j)
  get_elem?-set [] i j v = ground arith
  get_elem?-set (x ∷ xs) zero zero v = ground arith
  get_elem?-set (x ∷ xs) zero (suc j) v = ground arith
  get_elem?-set (x ∷ xs) (suc i) zero v = ground arith
  get_elem?-set (x ∷ xs) (suc i) (suc j) v = ground (arith, get_elem?-set xs i j v)

  pub get_elem?-drop_last :
      (xs : List A) (i : ℕ)
      → get_elem? (drop_last xs) i ≡ (if ltb (i + 1) (length xs) then get_elem? xs i else none)
  get_elem?-drop_last [] i = ground arith
  get_elem?-drop_last (x ∷ []) zero = ground arith
  get_elem?-drop_last (x ∷ []) (suc i) = ground arith
  get_elem?-drop_last (x ∷ y ∷ xs) zero = ground arith
  get_elem?-drop_last (x ∷ y ∷ xs) (suc i) = ground (arith, get_elem?-drop_last (y ∷ xs) i)

  pub get_elem?-append_last :
      (xs : List A) (v : A) (i : ℕ)
      → get_elem? (xs ++ v ∷ []) i ≡ (if i == length xs then some v else get_elem? xs i)
  get_elem?-append_last [] v zero = ground arith
  get_elem?-append_last [] v (suc i) = ground arith
  get_elem?-append_last (x ∷ xs) v zero = ground arith
  get_elem?-append_last (x ∷ xs) v (suc i) = ground (arith, get_elem?-append_last xs v i)

  pub get_elem?-lt : (xs : List A) (i : ℕ) {v : A} → get_elem? xs i ≡ some v → i < length xs
  get_elem?-lt [] i h = ground arith
  get_elem?-lt (x ∷ xs) zero h = omega arith
  get_elem?-lt (x ∷ xs) (suc i) h = omega (arith, get_elem?-lt xs i h)

  pub back?-get_elem? : (xs : List A) → back? xs ≡ get_elem? xs (length xs - 1)
  back?-get_elem? [] = refl
  back?-get_elem? (x ∷ []) = ground arith
  back?-get_elem? (x ∷ y ∷ xs) = ground (arith, back?-get_elem? (y ∷ xs))

  pub back?-ne-none : (xs : List A) (i : ℕ) {v : A} → get_elem? xs i ≡ some v → back? xs ≢ none
  back?-ne-none [] i h = ground arith
  back?-ne-none (x ∷ []) i h = ground arith
  back?-ne-none (x ∷ y ∷ xs) zero h = back?-ne-none (y ∷ xs) zero refl
  back?-ne-none (x ∷ y ∷ xs) (suc i) h = back?-ne-none (y ∷ xs) i h
