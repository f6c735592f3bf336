-- ===== src/Common/Tests.antt =====
-- Boolean tests on the native numbers and on byte strings, the conditional, and 64-bit words.
use Prim.Native.Nat.{ℕ, ◌+◌, ◌-◌, ◌%◌, ◌^◌, ◌≤◌, ◌<◌, compare, Ordering}
use Prim.Native.Char.{code}
use Prim.Native.String.{String}
use mathlib.Core.Path.{◌≡◌, refl}
use mathlib.Core.Logic.{◌↔◌, ◌⊎◌, inl, inr}
use mathlib.Core.Bool.{Bool, true, false, ◌&&◌}
use mathlib.Core.Option.{Option, none, some}
use mathlib.Core.List.{List, [], ◌∷◌}
use native.Mathlib.Omega.{arith}

abbrev pub ltb : ℕ → ℕ → Bool
ltb a b = elim (compare a b) [ Ordering.lt ↦ true | _ ↦ false ]

abbrev pub leb : ℕ → ℕ → Bool
leb a b = elim (compare a b) [ Ordering.gt ↦ false | _ ↦ true ]

infix 50 ◌==◌
abbrev pub ◌==◌ : ℕ → ℕ → Bool
a == b = elim (compare a b) [ Ordering.eq ↦ true | _ ↦ false ]

infix 1 if◌then◌else◌
abbrev pub if◌then◌else◌ {ℓ} : {A : Type ℓ} → Bool → A → A → A
if true then x else y = x
if false then x else y = y

pub ltb→lt : (a b : ℕ) → ltb a b ≡ true → a < b
ltb→lt a b h = ground arith

pub lt→ltb : (a b : ℕ) → a < b → ltb a b ≡ true
lt→ltb a b h = ground arith

pub leb→le : (a b : ℕ) → leb a b ≡ true → a ≤ b
leb→le a b h = ground arith

-- To split on a computed value and keep the equation.
pub Bool-cases : (b : Bool) → (b ≡ true) ⊎ (b ≡ false)
Bool-cases true = inl refl
Bool-cases false = inr refl

pub Option-cases {ℓ} : {A : Type ℓ} (o : Option A) → (o ≡ none) ⊎ ((a : A) × (o ≡ some a))
Option-cases none = inl refl
Option-cases (some a) = inr (a, refl)

-- A std::string is its bytes.
abbrev pub Bytes : Type 0
Bytes = List ℕ

-- The bytes of an ASCII literal.
abbrev pub codes : String → Bytes
codes String.[] = []
codes (String.◌∷◌ c s) = code c ∷ codes s

-- std::string's operator==.
infix 50 ◌===◌
unfoldable pub ◌===◌ : Bytes → Bytes → Bool
[] === [] = true
[] === (b ∷ t) = false
(a ∷ s) === [] = false
(a ∷ s) === (b ∷ t) = (a == b) && (s === t)

pub ===_sound : (s t : Bytes) → (s === t) ≡ true → s ≡ t
unfolding ◌===◌
===_sound [] [] h = refl
===_sound [] (b ∷ t) h = ground arith
===_sound (a ∷ s) [] h = ground arith
===_sound (a ∷ s) (b ∷ t) h = ground (arith, ===_sound s t)

pub ===_refl : (s : Bytes) → (s === s) ≡ true
unfolding ◌===◌
===_refl [] = refl
===_refl (a ∷ s) = ground (arith, ===_refl s)

pub ===_complete : (s t : Bytes) → s ≡ t → (s === t) ≡ true
===_complete s t e = rw e (===_refl t)

pub ===_iff : (s t : Bytes) → ((s === t) ≡ true) ↔ (s ≡ t)
===_iff s t = (===_sound s t, ===_complete s t)

-- std::size_t, 64 bits wide.
abbrev pub word : ℕ
word = 2 ^ 64

unfoldable pub add64 : ℕ → ℕ → ℕ
add64 a b = (a + b) % word

unfoldable pub sub64 : ℕ → ℕ → ℕ
sub64 a b = (a + word - b % word) % word
