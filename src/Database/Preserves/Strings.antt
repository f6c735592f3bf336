-- ===== src/Database/Preserves/Strings.antt =====
-- Keyspace and string operations keep the invariant.
use flash_kv.Common.{◌++◌, arith, Bytes, codes, Option-cases, inl, inr, length, length-append}
use flash_kv.Common.Int.{ℤ, checked_add}
use flash_kv.Common.Decimal.{to_string_ℤ}
use flash_kv.Database.State.{Database, string, erase, payload_memory}
use flash_kv.Database.Strings.{
  del, exists, type_of, set, get, parse_strict_integer, replace_text, increment_by, extend_text,
  append, string_length,
}
use flash_kv.Database.Invariant.{IsWellFormed}
use flash_kv.Database.Invariant.Nodes.{create-IsWellFormed, erase-IsWellFormed, touch-IsWellFormed}
use flash_kv.Database.Invariant.Values.{Holds, grow-Holds, swap-Holds}
use flash_kv.Database.Live.{live_induction, lookup-erase_self}
use flash_kv.Database.Typed.{
  Sound, string_cases, touch_held, erase_held, found_induction, acquired_induction,
}

pub del-IsWellFormed : (k : Bytes) (db : Database) → IsWellFormed db → IsWellFormed (del k db).1
unfolding del
del-IsWellFormed k db w = found_induction k db w Sound _ (λ db' w'. w') (λ e db' h. erase_held k h)

pub exists-IsWellFormed :
    (k : Bytes) (db : Database) → IsWellFormed db → IsWellFormed (exists k db).1
unfolding exists
exists-IsWellFormed k db w =
    found_induction k db w Sound _ (λ db' w'. w') (λ e db' h. h.well_formed)

pub type_of-IsWellFormed :
    (k : Bytes) (db : Database) → IsWellFormed db → IsWellFormed (type_of k db).1
unfolding type_of
type_of-IsWellFormed k db w =
    found_induction k db w Sound _ (λ db' w'. w') (λ e db' h. h.well_formed)

pub set-IsWellFormed : (k v : Bytes) (db : Database) → IsWellFormed db → IsWellFormed (set k v db).1
unfolding set
set-IsWellFormed k v db w =
    live_induction k db _ Sound w
      (λ db' w' missing. create-IsWellFormed k (string v) db' missing tt w')
      (λ e db' w' found.
        create-IsWellFormed k (string v) (erase k db') (lookup-erase_self k db') tt
          (erase-IsWellFormed k db' {e = e} found w'))

pub get-IsWellFormed : (k : Bytes) (db : Database) → IsWellFormed db → IsWellFormed (get k db).1
unfolding get
get-IsWellFormed k db w =
    found_induction k db w Sound _ (λ db' w'. w')
      (λ e db' h.
        string_cases Sound e db' h.well_formed _
          (λ text _. touch-IsWellFormed k _ h.found h.well_formed))

-- `text = updated` with its accounting, behind which the node is touched.
replace_text-Holds :
    (k text updated : Bytes) {db : Database}
    → Holds k (string text) db
    → Holds k (string updated) (replace_text k text updated db)
unfolding replace_text payload_memory
replace_text-Holds k text updated =
    swap-Holds k (string text) (string updated) (length text) (length updated) (omega arith) tt

extend_text-Holds :
    (k text value : Bytes) {db : Database}
    → Holds k (string text) db
    → Holds k (string (text ++ value)) (extend_text k text value db)
unfolding extend_text payload_memory
extend_text-Holds k text value =
    grow-Holds k (string text) (string (text ++ value)) (length value) (length-append text value) tt

pub increment_by-IsWellFormed :
    (k : Bytes) (delta : ℤ) (db : Database)
    → IsWellFormed db
    → IsWellFormed (increment_by k delta db).1
unfolding increment_by
increment_by-IsWellFormed k delta db w =
    acquired_induction k db w Sound (string (codes "0")) _ tt λ e db' h.
      string_cases Sound e db' h.well_formed _ λ text eq.
        elim (Option-cases (parse_strict_integer text)) [
          | inl bad ↦ rw bad h.well_formed
          | inr (current, good) ↦ rw good (elim (Option-cases (checked_add current delta)) [
            | inl over ↦ rw over h.well_formed
            | inr (result, fits) ↦
                rw fits (touch_held k (replace_text-Holds k text (to_string_ℤ result) (rw eq at h)))
          ])
        ]

pub append-IsWellFormed :
    (k v : Bytes) (db : Database) → IsWellFormed db → IsWellFormed (append k v db).1
unfolding append
append-IsWellFormed k v db w =
    live_induction k db _ Sound w
      (λ db' w' missing. create-IsWellFormed k (string v) db' missing tt w')
      λ e db' w' found. string_cases Sound e db' w' _ λ text eq. touch_held k (
        extend_text-Holds k text v
          (record { well_formed = w'; entry = e; found = found; value = eq }))

pub string_length-IsWellFormed :
    (k : Bytes) (db : Database) → IsWellFormed db → IsWellFormed (string_length k db).1
unfolding string_length
string_length-IsWellFormed k db w =
    found_induction k db w Sound _ (λ db' w'. w')
      (λ e db' h. string_cases Sound e db' h.well_formed _ (λ text _. h.well_formed))
