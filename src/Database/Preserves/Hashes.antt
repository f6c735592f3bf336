-- ===== src/Database/Preserves/Hashes.antt =====
-- Hash operations keep the invariant.
use flash_kv.Common.{
  ℕ, ◌+◌, ◌≡◌, refl, some, List, [], ◌∷◌, arith, Bytes, Option-cases, inl, inr, length, Assoc,
  lookup, without, modify, is_some, not, ===_iff, ===_refl, Distinct, without_absent, modify_absent,
  Distinct-without, Distinct-modify,
}
use flash_kv.Common.Exec.{ok}
use flash_kv.Database.State.{Database, Value, hash, hash_cost, element_cost, payload_memory}
use flash_kv.Database.Hashes.{
  emplace, with_field, set_field, set_fields, one_if, hash_set, hash_get, delete_field,
  delete_fields, drop_if_empty, hash_delete, hash_get_all, hash_length, hash_exists,
}
use flash_kv.Database.Invariant.{IsWellFormed}
use flash_kv.Database.Invariant.Values.{
  Holds, Holds-IsProper, grow-Holds, swap-Holds, discharge-Holds,
}
use flash_kv.Database.Typed.{
  Sound, hash_cases, touch_held, erase_held, found_induction, acquired_induction,
}

hash_cost-modify :
    (field v : Bytes) (h : Assoc Bytes) {old : Bytes}
    → Distinct h
    → lookup field h ≡ some old
    → hash_cost (modify field (λ _. v) h) + length old ≡ hash_cost h + length v
unfolding hash_cost lookup modify
hash_cost-modify field v [] d f = ground arith
hash_cost-modify field v ((i, x) ∷ h) {old} d f = ground (
  arith,
  hash_cost-modify field v h {old = old} d.1,
  ===_iff i field,
  modify_absent field (λ _. v) h,
)

hash_cost-without :
    (field : Bytes) (h : Assoc Bytes) {old : Bytes}
    → Distinct h
    → lookup field h ≡ some old
    → hash_cost (without field h) + element_cost field + length old ≡ hash_cost h
unfolding hash_cost lookup without
hash_cost-without field [] d f = ground arith
hash_cost-without field ((i, x) ∷ h) {old} d f =
    ground
      (arith, hash_cost-without field h {old = old} d.1, ===_iff i field, without_absent field h)

pub set_field-Holds :
    (k field v : Bytes) (h : Assoc Bytes) {db : Database}
    → Holds k (hash h) db
    → Holds k (hash (with_field field v h)) (set_field k field v h db)
unfolding set_field payload_memory
set_field-Holds k field v h {db} held = elim (Option-cases (lookup field h)) [
  | inl new ↦
      rw (new, emplace)
        (grow-Holds k (hash ((field, []) ∷ h)) (hash (modify field (λ _. v) ((field, []) ∷ h)))
          (length v)
          (unfold lookup in
            omega (
              arith,
              hash_cost-modify field v ((field, []) ∷ h) {old = []} (new, Holds-IsProper held)
                  (ground (arith, ===_refl field)),
            ))
          (Distinct-modify field (λ _. v) ((field, []) ∷ h) (new, Holds-IsProper held))
          (grow-Holds k (hash h) (hash ((field, []) ∷ h)) (element_cost field)
            (unfold hash_cost in omega arith) (new, Holds-IsProper held) held))
  | inr (old, there) ↦
      rw (there, emplace)
        (swap-Holds k (hash h) (hash (modify field (λ _. v) h)) (length old) (length v)
          (hash_cost-modify field v h {old = old} (Holds-IsProper held) there)
          (Distinct-modify field (λ _. v) h (Holds-IsProper held)) held)
]

-- The hash behind the loop of `hashSet`.
unfoldable pub with_fields : Assoc Bytes → Assoc Bytes → Assoc Bytes
with_fields [] h = h
with_fields ((field, v) ∷ fields) h = with_fields fields (with_field field v h)

pub set_fields-Holds :
    (k : Bytes) (fields h : Assoc Bytes) (added : ℕ) {db : Database}
    → Holds k (hash h) db
    → (n : ℕ) × ((set_fields k fields h added db).0 ≡ ok n)
      × Holds k (hash (with_fields fields h)) (set_fields k fields h added db).1
unfolding set_fields with_fields
set_fields-Holds k [] h added held = (added, refl, held)
set_fields-Holds k ((field, v) ∷ fields) h added held =
    set_fields-Holds k fields (with_field field v h)
      (added + one_if (not (is_some (lookup field h)))) (set_field-Holds k field v h held)

pub hash_set-IsWellFormed :
    (k : Bytes) (fields : Assoc Bytes) (db : Database)
    → IsWellFormed db
    → IsWellFormed (hash_set k fields db).1
unfolding hash_set
hash_set-IsWellFormed k fields db w = acquired_induction k db w Sound (hash []) _ tt λ e db' held.
    hash_cases Sound e db' held.well_formed _ λ h eq.
      let (n, returns, after) = set_fields-Holds k fields h 0 (rw eq at held) in
      rw returns (touch_held k after)

pub hash_get-IsWellFormed :
    (k field : Bytes) (db : Database) → IsWellFormed db → IsWellFormed (hash_get k field db).1
unfolding hash_get
hash_get-IsWellFormed k field db w =
    found_induction k db w Sound _ (λ db' w'. w')
      λ e db' held. hash_cases Sound e db' held.well_formed _ λ h eq.
        elim (Option-cases (lookup field h)) [
          | inl missing ↦ rw missing held.well_formed
          | inr (v, there) ↦ rw there (touch_held k held)
        ]

delete_field-Holds :
    (k field v : Bytes) (h : Assoc Bytes) {db : Database}
    → lookup field h ≡ some v
    → Holds k (hash h) db
    → Holds k (hash (without field h)) (delete_field k field v h db)
unfolding delete_field payload_memory
delete_field-Holds k field v h there held =
    discharge-Holds k (hash h) (hash (without field h)) (element_cost field + length v)
      (omega (arith, hash_cost-without field h {old = v} (Holds-IsProper held) there))
      (Distinct-without field h (Holds-IsProper held)) held

-- The loop returns the hash that it has stored.
pub delete_fields-Holds :
    (k : Bytes) (fields : List Bytes) (h : Assoc Bytes) (removed : ℕ) {db : Database}
    → Holds k (hash h) db
    → (h' : Assoc Bytes) × (n : ℕ) × ((delete_fields k fields h removed db).0 ≡ ok (h', n))
      × Holds k (hash h') (delete_fields k fields h removed db).1
unfolding delete_fields
delete_fields-Holds k [] h removed held = (h, removed, refl, held)
delete_fields-Holds k (field ∷ fields) h removed held = elim (Option-cases (lookup field h)) [
  | inl missing ↦ rw (missing, delete_fields) (delete_fields-Holds k fields h removed held)
  | inr (v, there) ↦
      rw (there, delete_fields)
        (delete_fields-Holds k fields (without field h) (removed + 1)
          (delete_field-Holds k field v h there held))
]

pub drop_if_empty_held {ℓ} :
    {A : Type ℓ} (k : Bytes) (l : List A) {v : Value} {db : Database}
    → Holds k v db
    → IsWellFormed (drop_if_empty k l db)
drop_if_empty_held k [] held = erase_held k held
drop_if_empty_held k (_ ∷ _) held = held.well_formed

pub hash_delete-IsWellFormed :
    (k : Bytes) (fields : List Bytes) (db : Database)
    → IsWellFormed db
    → IsWellFormed (hash_delete k fields db).1
unfolding hash_delete
hash_delete-IsWellFormed k fields db w =
    found_induction k db w Sound _ (λ db' w'. w')
      λ e db' held. hash_cases Sound e db' held.well_formed _ λ h eq.
        let (h', n, returns, after) = delete_fields-Holds k fields h 0 (rw eq at held) in
        rw returns (drop_if_empty_held k h' after)

pub hash_get_all-IsWellFormed :
    (k : Bytes) (db : Database) → IsWellFormed db → IsWellFormed (hash_get_all k db).1
unfolding hash_get_all
hash_get_all-IsWellFormed k db w =
    found_induction k db w Sound _ (λ db' w'. w')
      (λ e db' held. hash_cases Sound e db' held.well_formed _ (λ h _. touch_held k held))

pub hash_length-IsWellFormed :
    (k : Bytes) (db : Database) → IsWellFormed db → IsWellFormed (hash_length k db).1
unfolding hash_length
hash_length-IsWellFormed k db w =
    found_induction k db w Sound _ (λ db' w'. w')
      (λ e db' held. hash_cases Sound e db' held.well_formed _ (λ h _. held.well_formed))

pub hash_exists-IsWellFormed :
    (k field : Bytes) (db : Database) → IsWellFormed db → IsWellFormed (hash_exists k field db).1
unfolding hash_exists
hash_exists-IsWellFormed k field db w =
    found_induction k db w Sound _ (λ db' w'. w')
      (λ e db' held. hash_cases Sound e db' held.well_formed _ (λ h _. held.well_formed))
