-- ===== src/Database/Filled.antt =====
-- src/database.cpp: a list, hash or set is never stored without elements, so that `listPop` never
-- reads the end of an empty list. The view of `Refine` carries the proof for each operation.
pub mod Operations
pub mod Aggregates
pub mod Time
use flash_kv.Common.{
  ◌≡◌, ◌≢◌, refl, sym, ap, subst, Bool, true, false, none, some, List, [], ◌∷◌, arith, Bytes, ◌===◌,
  ===_sound, Bool-cases, inl, inr, if◌then◌else◌, Assoc,
}
use flash_kv.Common.Int.{ℤ, eqb_ℤ, leb_ℤ}
use flash_kv.Common.Exec.{Outcome, ok, throw, undefined, wrong_type}
use flash_kv.Database.State.{Db, Database, Value, string, list, hash, members, no_expiry}
use flash_kv.Database.Invariant.{IsWellFormed}
use flash_kv.Database.Live.{content, settle}
use flash_kv.Database.Refine.{Cell, Writes, Refines, time}
use flash_kv.Database.Refine.Primitives.{on_string, on_list, on_hash, on_set}

abbrev pub HasElements : Value → Type 0
HasElements (string text) = Unit {0}
HasElements (list []) = ⊥
HasElements (list (_ ∷ _)) = Unit {0}
HasElements (hash []) = ⊥
HasElements (hash (_ ∷ _)) = Unit {0}
HasElements (members []) = ⊥
HasElements (members (_ ∷ _)) = Unit {0}

abbrev pub IsFilled : Cell → Type 0
IsFilled none = Unit {0}
IsFilled (some (v, t)) = HasElements v

pub record IsSound (db : Database) : Type 0 where
  pub well_formed : IsWellFormed db
  pub filled : (k : Bytes) → IsFilled (content k db)

-- An operation keeps this, and its behaviour is defined.
pub record IsSafe {A : Type 0} (m : Db A) : Type 0 where
  pub sound : (db : Database) → IsSound db → IsSound (m db).1
  pub defined : (db : Database) → IsSound db → (m db).0 ≢ throw undefined

pub settle-IsFilled : (now : ℤ) (c : Cell) → IsFilled c → IsFilled (settle now c)
settle-IsFilled now none h = h
settle-IsFilled now (some (v, t)) h = elim (Bool-cases (eqb_ℤ t no_expiry)) [
  | inl never ↦ rw never h
  | inr timed ↦
      rw timed (elim (Bool-cases (leb_ℤ t now)) [ inl due ↦ rw due tt | inr early ↦ rw early h ])
]

-- A defined result, and a cell with elements left behind.
abbrev pub IsGood : {A : Type 0} → Outcome A × Cell → Type 0
IsGood r = (r.0 ≢ throw undefined) × IsFilled r.1

module _ {A : Type 0} where
  pub ok-ne-undefined : (a : A) → ok a ≢ throw undefined
  ok-ne-undefined a e = ground (arith, e)

  pub wrong_type-ne-undefined : ◌≢◌ {A = Outcome A} (throw wrong_type) (throw undefined)
  wrong_type-ne-undefined e = ground (arith, e)

-- Every cell has elements.
abbrev pub AreFilled : Database → Type 0
AreFilled db = (j : Bytes) → IsFilled (content j db)

pub Writes-AreFilled :
    {k : Bytes} {db db' : Database} {c : Cell}
    → Writes k db c db'
    → IsFilled c
    → AreFilled db
    → AreFilled db'
Writes-AreFilled {k} {db} {db'} w h filled j = elim (Bool-cases (k === j)) [
  | inl same ↦ subst (λ i. IsFilled (content i db')) (===_sound k j same) (rw w.here h)
  | inr other ↦ rw (w.elsewhere j other) (filled j)
]

module _ {A : Type 0} (k : Bytes) (spec : Cell → Outcome A × Cell) (m : Db A) where
  pub Refines-IsSafe :
      ((db : Database) → IsWellFormed db → IsWellFormed (m db).1)
      → ((c : Cell) → IsFilled c → IsGood (spec c))
      → ((db : Database) → Refines k db (spec (settle (time db) (content k db))) (m db))
      → IsSafe m
  Refines-IsSafe keeps good right = record {
    sound = λ db s. record {
      well_formed = keeps db s.well_formed;
      filled =
          Writes-AreFilled (right db).writes
            (good (settle (time db) (content k db))
              (settle-IsFilled (time db) (content k db) (s.filled k))).1
            s.filled;
    };
    defined = λ db s.
        rw ((right db).result)
          (good (settle (time db) (content k db))
            (settle-IsFilled (time db) (content k db) (s.filled k))).0;
  }

module _ {A : Type 0} (missing : Outcome A × Cell) (m : IsGood missing) where
  pub on_string-IsGood :
      (f : Bytes → ℤ → Outcome A × Cell)
      → ((text : Bytes) (t : ℤ) → IsGood (f text t))
      → (c : Cell) → IsFilled c
      → IsGood (on_string missing f c)
  on_string-IsGood f h none q = m
  on_string-IsGood f h (some (string text, t)) q = h text t
  on_string-IsGood f h (some (list l, t)) q = (wrong_type-ne-undefined, q)
  on_string-IsGood f h (some (hash l, t)) q = (wrong_type-ne-undefined, q)
  on_string-IsGood f h (some (members l, t)) q = (wrong_type-ne-undefined, q)

  pub on_list-IsGood :
      (f : List Bytes → ℤ → Outcome A × Cell)
      → ((v : Bytes) (l : List Bytes) (t : ℤ) → IsGood (f (v ∷ l) t))
      → (c : Cell) → IsFilled c
      → IsGood (on_list missing f c)
  on_list-IsGood f h none q = m
  on_list-IsGood f h (some (list [], t)) q = absurd q
  on_list-IsGood f h (some (list (v ∷ l), t)) q = h v l t
  on_list-IsGood f h (some (string l, t)) q = (wrong_type-ne-undefined, q)
  on_list-IsGood f h (some (hash l, t)) q = (wrong_type-ne-undefined, q)
  on_list-IsGood f h (some (members l, t)) q = (wrong_type-ne-undefined, q)

  pub on_hash-IsGood :
      (f : Assoc Bytes → ℤ → Outcome A × Cell)
      → ((e : Bytes × Bytes) (l : Assoc Bytes) (t : ℤ) → IsGood (f (e ∷ l) t))
      → (c : Cell) → IsFilled c
      → IsGood (on_hash missing f c)
  on_hash-IsGood f h none q = m
  on_hash-IsGood f h (some (hash [], t)) q = absurd q
  on_hash-IsGood f h (some (hash (e ∷ l), t)) q = h e l t
  on_hash-IsGood f h (some (string l, t)) q = (wrong_type-ne-undefined, q)
  on_hash-IsGood f h (some (list l, t)) q = (wrong_type-ne-undefined, q)
  on_hash-IsGood f h (some (members l, t)) q = (wrong_type-ne-undefined, q)

  pub on_set-IsGood :
      (f : List Bytes → ℤ → Outcome A × Cell)
      → ((v : Bytes) (l : List Bytes) (t : ℤ) → IsGood (f (v ∷ l) t))
      → (c : Cell) → IsFilled c
      → IsGood (on_set missing f c)
  on_set-IsGood f h none q = m
  on_set-IsGood f h (some (members [], t)) q = absurd q
  on_set-IsGood f h (some (members (v ∷ l), t)) q = h v l t
  on_set-IsGood f h (some (string l, t)) q = (wrong_type-ne-undefined, q)
  on_set-IsGood f h (some (list l, t)) q = (wrong_type-ne-undefined, q)
  on_set-IsGood f h (some (hash l, t)) q = (wrong_type-ne-undefined, q)
