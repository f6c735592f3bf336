-- ===== src/Database/Hashes.antt =====
-- src/database.cpp, hash and set operations of `Database`.
use flash_kv.Common.{
  ℕ, ◌+◌, Bool, true, false, ◌&&◌, ◌||◌, not, Option, none, some, List, [], ◌∷◌, Bytes,
  if◌then◌else◌, length, ltb, ◌==◌, Assoc, lookup, without, modify, is_some,
}
use flash_kv.Common.Exec.{pure, run, ◌>>=◌, ◌>>◌}
use flash_kv.Database.State.{
  Db, Database, hash, element_cost, find_live, create_node, erase, touch, as_hash, add_memory,
  remove_memory, store_value,
}

-- std::string's operator<: bytes as unsigned, the shorter text first.
unfoldable pub before : Bytes → Bytes → Bool
before [] [] = false
before [] (b ∷ t) = true
before (a ∷ s) [] = false
before (a ∷ s) (b ∷ t) = ltb a b || (a == b) && before s t

-- std::sort. Equal keys are equal texts, so the order of equal elements does not show.
unfoldable pub insert_sorted : Bytes → List Bytes → List Bytes
insert_sorted k [] = k ∷ []
insert_sorted k (j ∷ l) = if before j k then j ∷ insert_sorted k l else k ∷ j ∷ l

unfoldable pub sort : List Bytes → List Bytes
unfolding insert_sorted
sort [] = []
sort (k ∷ l) = insert_sorted k (sort l)

-- The order of pairs: the fields of a hash are distinct, so the fields decide it.
unfoldable pub insert_field : Bytes × Bytes → Assoc Bytes → Assoc Bytes
insert_field (f, v) [] = (f, v) ∷ []
insert_field (f, v) ((g, w) ∷ h) =
    if before g f then (g, w) ∷ insert_field (f, v) h else (f, v) ∷ (g, w) ∷ h

unfoldable pub sort_fields : Assoc Bytes → Assoc Bytes
unfolding insert_field
sort_fields [] = []
sort_fields ((f, v) ∷ h) = insert_field (f, v) (sort_fields h)

-- `try_emplace(field)` with its accounting: the memory of a new field, or of the old value.
unfoldable pub emplace : Bytes → Bytes → Option Bytes → Assoc Bytes → Database → Database
emplace key field none h db =
    add_memory key (element_cost field) (store_value key (hash ((field, []) ∷ h)) db)
emplace key field (some old) h db = remove_memory key (length old) db

abbrev pub emplaced : Bytes → Option Bytes → Assoc Bytes → Assoc Bytes
emplaced field none h = (field, []) ∷ h
emplaced field (some old) h = h

-- The hash behind `entry->second = value`.
abbrev pub with_field : Bytes → Bytes → Assoc Bytes → Assoc Bytes
with_field field v h = modify field (λ _. v) (emplaced field (lookup field h) h)

-- One round of the loop of `hashSet`.
unfoldable pub set_field : Bytes → Bytes → Bytes → Assoc Bytes → Database → Database
unfolding emplace
set_field key field v h db =
    add_memory key (length v)
      (store_value key (hash (with_field field v h)) (emplace key field (lookup field h) h db))

abbrev pub one_if : Bool → ℕ
one_if true = 1
one_if false = 0

unfoldable pub set_fields : Bytes → Assoc Bytes → Assoc Bytes → ℕ → Db ℕ
unfolding set_field
set_fields key [] h added = pure added
set_fields key ((field, v) ∷ fields) h added = do
  run (set_field key field v h)
  set_fields key fields (with_field field v h) (added + one_if (not (is_some (lookup field h))))

unfoldable pub hash_set : Bytes → Assoc Bytes → Db ℕ
unfolding set_fields as_hash
hash_set key fields = do
  node ← find_live key
  e ← elim node [ none ↦ create_node key (hash []) | some e ↦ pure e ]
  h ← as_hash e
  added ← set_fields key fields h 0
  run (touch key)
  pure added

unfoldable pub hash_get : Bytes → Bytes → Db (Option Bytes)
unfolding as_hash
hash_get key field = do
  node ← find_live key
  elim node [
    | none ↦ pure none
    | some e ↦ do
      h ← as_hash e
      elim (lookup field h) [ none ↦ pure none | some v ↦ run (touch key) >> pure (some v) ]
  ]

-- One round of the loop of `hashDelete`, for a field that is there.
unfoldable pub delete_field : Bytes → Bytes → Bytes → Assoc Bytes → Database → Database
delete_field key field v h db =
    store_value key (hash (without field h)) (remove_memory key (element_cost field + length v) db)

unfoldable pub delete_fields : Bytes → List Bytes → Assoc Bytes → ℕ → Db (Assoc Bytes × ℕ)
unfolding delete_field
delete_fields key [] h removed = pure (h, removed)
delete_fields key (field ∷ fields) h removed = elim (lookup field h) [
  | none ↦ delete_fields key fields h removed
  | some v ↦ do
    run (delete_field key field v h)
    delete_fields key fields (without field h) (removed + 1)
]

abbrev pub drop_if_empty {ℓ} : {A : Type ℓ} → Bytes → List A → Database → Database
drop_if_empty key [] db = erase key db
drop_if_empty key (_ ∷ _) db = db

unfoldable pub hash_delete : Bytes → List Bytes → Db ℕ
unfolding delete_fields as_hash
hash_delete key fields = do
  node ← find_live key
  elim node [
    | none ↦ pure 0
    | some e ↦ do
      h ← as_hash e
      (h', removed) ← delete_fields key fields h 0
      run (drop_if_empty key h')
      pure removed
  ]

unfoldable pub hash_get_all : Bytes → Db (Assoc Bytes)
unfolding as_hash sort_fields
hash_get_all key = do
  node ← find_live key
  elim node [ none ↦ pure [] | some e ↦ do h ← as_hash e; run (touch key); pure (sort_fields h) ]

unfoldable pub hash_length : Bytes → Db ℕ
unfolding as_hash
hash_length key = do
  node ← find_live key
  elim node [ none ↦ pure 0 | some e ↦ do h ← as_hash e; pure (length h) ]

unfoldable pub hash_exists : Bytes → Bytes → Db Bool
unfolding as_hash
hash_exists key field = do
  node ← find_live key
  elim node [ none ↦ pure false | some e ↦ do h ← as_hash e; pure (is_some (lookup field h)) ]
