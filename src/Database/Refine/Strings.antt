-- ===== src/Database/Refine/Strings.antt =====
-- Keyspace, string and expiry operations on one cell of the abstract map, and the proofs that
-- `Database` implements them.
use flash_kv.Common.{
  ℕ, ◌≡◌, refl, ap, Bool, true, false, Option, none, some, ◌++◌, Bytes, codes, inl, inr,
  Option-cases, Bool-cases, if◌then◌else◌, length,
}
use flash_kv.Common.Int.{in_range, ℤ, checked_add, eqb_ℤ}
use flash_kv.Common.Decimal.{to_string_ℤ}
use flash_kv.Common.Exec.{Outcome, ok, throw, not_integer, overflow}
use flash_kv.Database.State.{Database, ValueType, string, value_type, no_expiry, erase, touch}
use flash_kv.Database.Strings.{
  del, exists, type_of, set, get, parse_strict_integer, replace_text, increment_by, append,
  string_length,
}
use flash_kv.Database.Expiry.{persist}
use flash_kv.Database.Live.{lookup-erase_self, content, content_of, settle}
use flash_kv.Database.Refine.{
  Cell, Writes, Refines, Writes-then, Refines-nothing, Refines-same, refine_live, create-Writes,
  erase-Writes, time,
}
use flash_kv.Database.Refine.Numerals.{
  integer, exact_sum, checked_add-exact_sum, parse_strict_integer-integer, integer-to_string_ℤ,
}
use flash_kv.Database.Refine.Primitives.{
  on_string, refine_string, acquire-Refines, store_value-Writes, add_memory-Writes,
  remove_memory-Writes, touch-Writes, clear_expiry-Writes,
}

abbrev pub cell_del : Cell → Outcome Bool × Cell
cell_del none = (ok false, none)
cell_del (some _) = (ok true, none)

-- DEL of one key removes it and answers whether it was there. A key whose deadline has passed at
-- the first reading of the clock counts as missing; the view of every other key stays.
pub del-Refines :
    (k : Bytes) (db : Database)
    → Refines k db (cell_del (settle (time db) (content k db))) (del k db)
unfolding del
del-Refines k =
    refine_live k cell_del _ (λ db e. Refines-nothing (ap content_of e))
      (λ e db found. record { result = refl; writes = erase-Writes k db })

abbrev pub cell_exists : Cell → Outcome Bool × Cell
cell_exists none = (ok false, none)
cell_exists (some c) = (ok true, some c)

pub exists-Refines :
    (k : Bytes) (db : Database)
    → Refines k db (cell_exists (settle (time db) (content k db))) (exists k db)
unfolding exists
exists-Refines k =
    refine_live k cell_exists _ (λ db e. Refines-nothing (ap content_of e))
      (λ e db found. Refines-nothing (ap content_of found))

abbrev pub cell_type : Cell → Outcome (Option ValueType) × Cell
cell_type none = (ok none, none)
cell_type (some (v, t)) = (ok (some (value_type v)), some (v, t))

pub type_of-Refines :
    (k : Bytes) (db : Database)
    → Refines k db (cell_type (settle (time db) (content k db))) (type_of k db)
unfolding type_of
type_of-Refines k =
    refine_live k cell_type _ (λ db e. Refines-nothing (ap content_of e))
      (λ e db found. Refines-nothing (ap content_of found))

-- SET without options: any old value and its deadline are gone.
abbrev pub cell_set : Bytes → Cell → Outcome (Unit {0}) × Cell
cell_set v _ = (ok tt, some (string v, no_expiry))

-- SET without options leaves the value as a string without a deadline, whatever type and deadline
-- the key had. A key whose deadline has passed at the first reading of the clock counts as
-- missing; the view of every other key stays.
pub set-Refines :
    (k v : Bytes) (db : Database)
    → Refines k db (cell_set v (settle (time db) (content k db))) (set k v db)
unfolding set
set-Refines k v =
    refine_live k (cell_set v) _
      (λ db e. record { result = refl; writes = create-Writes k (string v) db e })
      (λ e db found. record {
        result = refl;
        writes =
            Writes-then (erase-Writes k db)
              (create-Writes k (string v) (erase k db) (lookup-erase_self k db));
      })

abbrev pub cell_get : Cell → Outcome (Option Bytes) × Cell
cell_get = on_string (ok none, none) (λ text t. (ok (some text), some (string text, t)))

-- GET returns the text of a string and nothing for a missing key, and the view stays; another type
-- gives WRONGTYPE. A key whose deadline has passed at the first reading of the clock counts as
-- missing; the view of every other key stays.
pub get-Refines :
    (k : Bytes) (db : Database)
    → Refines k db (cell_get (settle (time db) (content k db))) (get k db)
unfolding get touch
get-Refines k =
    refine_live k cell_get _ (λ db e. Refines-same (λ j. refl) (ap content_of e))
      (λ e db found.
        refine_string k (ok none, none) _ _ (λ text t db' h. Refines-same (λ j. refl) h) e db
          (ap content_of found))

abbrev pub cell_string_length : Cell → Outcome ℕ × Cell
cell_string_length = on_string (ok 0, none) (λ text t. (ok (length text), some (string text, t)))

pub string_length-Refines :
    (k : Bytes) (db : Database)
    → Refines k db (cell_string_length (settle (time db) (content k db))) (string_length k db)
unfolding string_length
string_length-Refines k =
    refine_live k cell_string_length _ (λ db e. Refines-same (λ j. refl) (ap content_of e))
      (λ e db found.
        refine_string k (ok 0, none) _ _ (λ text t db' h. Refines-same (λ j. refl) h) e db
          (ap content_of found))

-- APPEND: a missing key is created without a deadline; a string keeps its deadline.
abbrev pub cell_append : Bytes → Cell → Outcome ℕ × Cell
cell_append v =
    on_string (ok (length v), some (string v, no_expiry))
      (λ text t. (ok (length (text ++ v)), some (string (text ++ v), t)))

-- APPEND extends a text, keeps its deadline and returns the new length; a missing key becomes the
-- text without a deadline, and another type gives WRONGTYPE and stays. A key whose deadline has
-- passed at the first reading of the clock counts as missing; the view of every other key stays.
pub append-Refines :
    (k v : Bytes) (db : Database)
    → Refines k db (cell_append v (settle (time db) (content k db))) (append k v db)
unfolding append
append-Refines k v =
    refine_live k (cell_append v) _
      (λ db e. record { result = refl; writes = create-Writes k (string v) db e })
      (λ e db found.
        refine_string k (ok (length v), some (string v, no_expiry)) _ _
          (λ text t db' h.
            let stored = store_value-Writes k h (string (text ++ v)) in
            let grown = Writes-then stored (add_memory-Writes k stored.here (length v)) in
            record { result = refl; writes = touch-Writes grown })
          e db (ap content_of found))

-- INCRBY on a text: the errors leave it, and a number is replaced by the text of the sum.
abbrev pub summed : (ℤ → Bytes) → Bytes → ℤ → Option ℤ → Outcome ℤ × Cell
summed print text t none = (throw overflow, some (string text, t))
summed print text t (some result) = (ok result, some (string (print result), t))

abbrev pub incremented : (ℤ → Bytes) → ℤ → Bytes → ℤ → Option ℤ → Outcome ℤ × Cell
incremented print delta text t none = (throw not_integer, some (string text, t))
incremented print delta text t (some current) = summed print text t (exact_sum current delta)

abbrev pub cell_text_increment : (ℤ → Bytes) → ℤ → Bytes → ℤ → Outcome ℤ × Cell
cell_text_increment print delta text t = incremented print delta text t (integer text)

-- A missing key counts as "0", without a deadline.
abbrev pub cell_increment : (ℤ → Bytes) → ℤ → Cell → Outcome ℤ × Cell
cell_increment print delta =
    on_string (cell_text_increment print delta (codes "0") no_expiry)
      (cell_text_increment print delta)

replace_text-Writes :
    (k text updated : Bytes) {t : ℤ} {db : Database}
    → content k db ≡ some (string text, t)
    → Writes k db (some (string updated, t)) (replace_text k text updated db)
unfolding replace_text
replace_text-Writes k text updated h =
    let taken = remove_memory-Writes k h (length text) in
    let stored = Writes-then taken (store_value-Writes k taken.here (string updated)) in
    Writes-then stored (add_memory-Writes k stored.here (length updated))

pub increment_by_print :
    (k : Bytes) (delta : ℤ) (db : Database)
    → Refines k db
        (cell_increment to_string_ℤ delta (settle (time db) (content k db)))
        (increment_by k delta db)
unfolding increment_by
increment_by_print k delta =
    let on_text = cell_text_increment to_string_ℤ delta in
    acquire-Refines k (string (codes "0")) (cell_increment to_string_ℤ delta) _ refl (
      refine_string k (on_text (codes "0") no_expiry) on_text _ λ text t db h.
        rw (← parse_strict_integer-integer text) elim (Option-cases (parse_strict_integer text)) [
          | inl bad ↦ rw bad (Refines-nothing h)
          | inr (current, good) ↦
              rw (good, ← checked_add-exact_sum current delta)
                (elim (Option-cases (checked_add current delta)) [
                  | inl over ↦ rw over (Refines-nothing h)
                  | inr (result, fits) ↦ rw fits (
                      let stored = replace_text-Writes k text (to_string_ℤ result) h in
                      record { result = refl; writes = touch-Writes stored })
                ])
        ])

-- INCRBY reads a text as an integer, some digits without a sign up to 2^63 - 1 or behind a minus
-- sign up to 2^63, replaces it by a text that stands for the sum, returns the sum and keeps the
-- deadline; a missing key counts as 0 without a deadline. A text that is no such integer, a sum
-- out of range and another type give their errors and the value stays. A key whose deadline has
-- passed at the first reading of the clock counts as missing; the view of every other key stays.
pub increment_by-Refines :
    (k : Bytes) (delta : ℤ) (db : Database)
    → (print : ℤ → Bytes) × ((z : ℤ) → in_range z ≡ true → integer (print z) ≡ some z)
      × Refines k db
          (cell_increment print delta (settle (time db) (content k db)))
          (increment_by k delta db)
increment_by-Refines k delta db = (to_string_ℤ, integer-to_string_ℤ, increment_by_print k delta db)

-- PERSIST takes the deadline off, where there is one.
abbrev pub cell_persist : Cell → Outcome Bool × Cell
cell_persist none = (ok false, none)
cell_persist (some (v, t)) =
    if eqb_ℤ t no_expiry then (ok false, some (v, t)) else (ok true, some (v, no_expiry))

-- PERSIST takes the deadline off and answers true, and answers false for a missing key and for one
-- without a deadline. A key whose deadline has passed at the first reading of the clock counts as
-- missing; the view of every other key stays.
pub persist-Refines :
    (k : Bytes) (db : Database)
    → Refines k db (cell_persist (settle (time db) (content k db))) (persist k db)
unfolding persist
persist-Refines k =
    refine_live k cell_persist _ (λ db e. Refines-nothing (ap content_of e))
      λ e db found. elim (Bool-cases (eqb_ℤ e.expires_at_ms no_expiry)) [
        | inl never ↦ rw never (Refines-nothing (ap content_of found))
        | inr timed ↦
            rw timed
              (record { result = refl; writes = clear_expiry-Writes k (ap content_of found) })
      ]
