-- ===== src/Common/Exec.antt =====
-- Methods that change an object and may throw: the state comes back beside the exception too.
use mathlib.Core.Option.{Option, none, some}

-- WrongTypeError, NotIntegerError, std::overflow_error; `undefined` is no exception but the mark of
-- undefined behaviour, such as `front()` of an empty container.
pub data Error : Type 0 where
  wrong_type not_integer overflow undefined : Error

pub data Outcome {ℓ} (A : Type ℓ) : Type ℓ where
  ok : A → Outcome A
  throw : Error → Outcome A

abbrev pub Exec : Type 0 → Type 0 → Type 0
Exec S A = S → Outcome A × S

module _ {S A : Type 0} where
  abbrev pub pure : A → Exec S A
  pure a s = (ok a, s)

  abbrev pub raise : Error → Exec S A
  raise e s = (throw e, s)

  -- `if (!o) throw e;`
  abbrev pub or_throw : Option A → Error → Exec S A
  or_throw none e = raise e
  or_throw (some a) e = pure a

module _ {S : Type 0} where
  -- A mutation with no result.
  abbrev pub run : (S → S) → Exec S (Unit {0})
  run f s = (ok tt, f s)

module _ {S A B : Type 0} where
  abbrev pub continue : Outcome A → (A → Exec S B) → Exec S B
  continue (ok a) f s = f a s
  continue (throw e) f s = (throw e, s)

  infixl 5 ◌>>=◌
  abbrev pub ◌>>=◌ : Exec S A → (A → Exec S B) → Exec S B
  ◌>>=◌ m f s = let (r, s') = m s in continue r f s'

module _ {S B : Type 0} where
  infixl 5 ◌>>◌
  abbrev pub ◌>>◌ : Exec S (Unit {0}) → Exec S B → Exec S B
  m >> k = m >>= λ _. k
