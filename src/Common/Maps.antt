-- ===== src/Common/Maps.antt =====
-- Finite maps keyed by byte strings (std::unordered_map<std::string, V>), as association lists,
-- and lists of distinct keys.
use Prim.Native.Nat.{◌+◌}
use mathlib.Core.Path.{◌≡◌, refl}
use mathlib.Core.Bool.{Bool, true, false, ◌||◌}
use mathlib.Core.List.{List, [], ◌∷◌}
use mathlib.Core.Option
use mathlib.Core.Option.{Option, none, some}
use native.Mathlib.Omega.{arith}
use flash_kv.Common.Tests.{Bytes, ◌===◌, ===_iff, if◌then◌else◌}
use flash_kv.Common.Lists.{length}

abbrev pub Assoc {ℓ} : Type ℓ → Type ℓ
Assoc V = List (Bytes × V)

abbrev pub is_some {ℓ} : {A : Type ℓ} → Option A → Bool
is_some none = false
is_some (some a) = true

module _ {ℓ} {V : Type ℓ} where
  -- `find`.
  unfoldable pub lookup : Bytes → Assoc V → Option V
  lookup k [] = none
  lookup k ((j, v) ∷ l) = if j === k then some v else lookup k l

  -- `erase`.
  unfoldable pub without : Bytes → Assoc V → Assoc V
  without k [] = []
  without k ((j, v) ∷ l) = let rest = without k l in if j === k then rest else (j, v) ∷ rest

  -- Writing through the iterator or pointer to the key's node.
  unfoldable pub modify : Bytes → (V → V) → Assoc V → Assoc V
  modify k f [] = []
  modify k f ((j, v) ∷ l) =
      let rest = modify k f l in if j === k then (j, f v) ∷ rest else (j, v) ∷ rest

  -- No key stands twice.
  abbrev pub Distinct : Assoc V → Type ℓ
  Distinct [] = Unit
  Distinct ((k, v) ∷ l) = (lookup k l ≡ none) × Distinct l

module _ {ℓ} {V : Type ℓ} where
  pub lookup-without :
      (k j : Bytes) (l : Assoc V) → lookup j (without k l) ≡ (if k === j then none else lookup j l)
  unfolding lookup without
  lookup-without k j [] = ground arith
  lookup-without k j ((i, v) ∷ l) =
      ground (arith, lookup-without k j l, ===_iff i k, ===_iff i j, ===_iff k j)

  pub lookup-modify :
      (k j : Bytes) (f : V → V) (l : Assoc V)
      → lookup j (modify k f l) ≡ (if k === j then Option.map f (lookup j l) else lookup j l)
  unfolding lookup modify
  lookup-modify k j f [] = ground arith
  lookup-modify k j f ((i, v) ∷ l) =
      ground (arith, lookup-modify k j f l, ===_iff i k, ===_iff i j, ===_iff k j)

  pub modify-modify :
      (k : Bytes) (f g : V → V) (l : Assoc V)
      → modify k f (modify k g l) ≡ modify k (λ v. f (g v)) l
  unfolding modify
  modify-modify k f g [] = refl
  modify-modify k f g ((i, v) ∷ l) = ground (arith, modify-modify k f g l)

  pub Distinct-without : (k : Bytes) (l : Assoc V) → Distinct l → Distinct (without k l)
  unfolding without
  Distinct-without k [] d = tt
  Distinct-without k ((i, v) ∷ l) d = ground (arith, Distinct-without k l d.1, lookup-without k i l)

  pub Distinct-modify : (k : Bytes) (f : V → V) (l : Assoc V) → Distinct l → Distinct (modify k f l)
  unfolding modify
  Distinct-modify k f [] d = tt
  Distinct-modify k f ((i, v) ∷ l) d =
      ground (arith, Distinct-modify k f l d.1, lookup-modify k i f l)

  pub without_absent : (k : Bytes) (l : Assoc V) → lookup k l ≡ none → without k l ≡ l
  unfolding lookup without
  without_absent k [] h = refl
  without_absent k ((i, v) ∷ l) h = ground (arith, without_absent k l)

  pub modify_absent : (k : Bytes) (f : V → V) (l : Assoc V) → lookup k l ≡ none → modify k f l ≡ l
  unfolding lookup modify
  modify_absent k f [] h = refl
  modify_absent k f ((i, v) ∷ l) h = ground (arith, modify_absent k f l)

  pub length-without :
      (k : Bytes) (l : Assoc V)
      → Distinct l
      → length (without k l) + (if is_some (lookup k l) then 1 else 0) ≡ length l
  unfolding lookup without
  length-without k [] d = ground arith
  length-without k ((i, v) ∷ l) d =
      ground (arith, length-without k l d.1, ===_iff i k, without_absent k l)

  pub length-modify : (k : Bytes) (f : V → V) (l : Assoc V) → length (modify k f l) ≡ length l
  unfolding modify
  length-modify k f [] = refl
  length-modify k f ((i, v) ∷ l) = ground (arith, length-modify k f l)

-- Lists of keys.
unfoldable pub contains : Bytes → List Bytes → Bool
contains k [] = false
contains k (j ∷ l) = (j === k) || contains k l

unfoldable pub remove : Bytes → List Bytes → List Bytes
remove k [] = []
remove k (j ∷ l) = let rest = remove k l in if j === k then rest else j ∷ rest

abbrev pub Unique : List Bytes → Type 0
Unique [] = Unit
Unique (k ∷ l) = (contains k l ≡ false) × Unique l

pub contains-remove :
    (k j : Bytes) (l : List Bytes)
    → contains j (remove k l) ≡ (if k === j then false else contains j l)
unfolding contains remove
contains-remove k j [] = ground arith
contains-remove k j (i ∷ l) =
    ground (arith, contains-remove k j l, ===_iff i k, ===_iff i j, ===_iff k j)

pub remove-Unique : (k : Bytes) (l : List Bytes) → Unique l → Unique (remove k l)
unfolding remove
remove-Unique k [] u = tt
remove-Unique k (i ∷ l) u = ground (arith, remove-Unique k l u.1, contains-remove k i l)

pub remove_absent : (k : Bytes) (l : List Bytes) → contains k l ≡ false → remove k l ≡ l
unfolding contains remove
remove_absent k [] h = refl
remove_absent k (i ∷ l) h = ground (arith, remove_absent k l)

pub length-remove :
    (k : Bytes) (l : List Bytes)
    → Unique l
    → length (remove k l) + (if contains k l then 1 else 0) ≡ length l
unfolding contains remove
length-remove k [] u = ground arith
length-remove k (i ∷ l) u = ground (arith, length-remove k l u.1, ===_iff i k, remove_absent k l)
