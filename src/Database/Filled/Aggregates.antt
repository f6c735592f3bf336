-- ===== src/Database/Filled/Aggregates.antt =====
-- src/database.cpp: the operations on hashes and sets are safe.
use flash_kv.Common.{
  ◌≡◌, arith, some, List, [], ◌∷◌, Bytes, Bool-cases, Option-cases, inl, inr, Assoc, lookup, modify,
  contains, if◌then◌else◌, ◌===◌,
}
use flash_kv.Common.Int.{ℤ}
use flash_kv.Database.State.{hash, members}
use flash_kv.Database.Hashes.{
  with_field, hash_set, hash_get, hash_delete, hash_get_all, hash_length, hash_exists,
}
use flash_kv.Database.Sets.{set_add, set_remove, set_members, set_is_member, set_cardinality}
use flash_kv.Database.Preserves.Hashes.{
  with_fields, hash_set-IsWellFormed, hash_get-IsWellFormed, hash_delete-IsWellFormed,
  hash_get_all-IsWellFormed, hash_length-IsWellFormed, hash_exists-IsWellFormed,
}
use flash_kv.Database.Preserves.Sets.{
  set_add-IsWellFormed, set_remove-IsWellFormed, set_members-IsWellFormed,
  set_is_member-IsWellFormed, set_cardinality-IsWellFormed,
}
use flash_kv.Database.Refine.Hashes.{
  cell_hset, hash_set-Refines, cell_hget, hash_get-Refines, hash_cell, without_all, cell_hdel,
  hash_delete-Refines, cell_hgetall, hash_get_all_sort, cell_hlen, hash_length-Refines,
  cell_hexists, hash_exists-Refines,
}
use flash_kv.Database.Refine.Sets.{
  add_all, cell_sadd, set_add-Refines, remove_all, set_cell, cell_srem, set_remove-Refines,
  cell_smembers, set_members_sort, cell_sismember, set_is_member-Refines, cell_scard,
  set_cardinality-Refines,
}
use flash_kv.Database.Filled.{
  HasElements, IsFilled, IsSafe, Refines-IsSafe, ok-ne-undefined, on_hash-IsGood, on_set-IsGood,
}

modify-HasElements :
    (k : Bytes) (f : Bytes → Bytes) (h : Assoc Bytes)
    → HasElements (hash h)
    → HasElements (hash (modify k f h))
unfolding modify
modify-HasElements k f [] q = q
modify-HasElements k f ((j, v) ∷ h) q = elim (Bool-cases (j === k)) [
  | inl same ↦ rw same tt
  | inr other ↦ rw other tt
]

found-HasElements :
    (k : Bytes) (h : Assoc Bytes) {v : Bytes} → lookup k h ≡ some v → HasElements (hash h)
unfolding lookup
found-HasElements k [] e = ground (arith, e)
found-HasElements k (x ∷ h) e = tt

with_field-HasElements :
    (field v : Bytes) (h : Assoc Bytes) → HasElements (hash (with_field field v h))
with_field-HasElements field v h = elim (Option-cases (lookup field h)) [
  | inl new ↦ rw new (modify-HasElements field (λ _. v) ((field, []) ∷ h) tt)
  | inr (old, there) ↦
      rw there (modify-HasElements field (λ _. v) h (found-HasElements field h there))
]

with_fields-HasElements :
    (fields h : Assoc Bytes) → HasElements (hash h) → HasElements (hash (with_fields fields h))
unfolding with_fields
with_fields-HasElements [] h q = q
with_fields-HasElements ((field, v) ∷ fields) h q =
    with_fields-HasElements fields (with_field field v h) (with_field-HasElements field v h)

pub hash_set-IsSafe :
    (k : Bytes) (f : Bytes × Bytes) (fields : Assoc Bytes) → IsSafe (hash_set k (f ∷ fields))
hash_set-IsSafe k f fields =
    Refines-IsSafe k (cell_hset (f ∷ fields)) _ (hash_set-IsWellFormed k (f ∷ fields))
      (on_hash-IsGood _ (ok-ne-undefined _, stored []) _
        (λ e l t. (ok-ne-undefined _, stored (e ∷ l))))
      (hash_set-Refines k (f ∷ fields))
  where
    stored : (h : Assoc Bytes) → HasElements (hash (with_fields (f ∷ fields) h))
    stored h =
        unfold with_fields in
        with_fields-HasElements fields (with_field f.0 f.1 h) (with_field-HasElements f.0 f.1 h)

hash_cell-IsFilled : (h : Assoc Bytes) (t : ℤ) → IsFilled (hash_cell h t)
hash_cell-IsFilled [] t = tt
hash_cell-IsFilled (f ∷ h) t = tt

module _ (k : Bytes) where
  pub hash_get-IsSafe : (field : Bytes) → IsSafe (hash_get k field)
  hash_get-IsSafe field =
      Refines-IsSafe k (cell_hget field) _ (hash_get-IsWellFormed k field)
        (on_hash-IsGood _ (ok-ne-undefined _, tt) _ (λ e l t. (ok-ne-undefined _, tt)))
        (hash_get-Refines k field)

  pub hash_delete-IsSafe : (fields : List Bytes) → IsSafe (hash_delete k fields)
  hash_delete-IsSafe fields =
      Refines-IsSafe k (cell_hdel fields) _ (hash_delete-IsWellFormed k fields)
        (on_hash-IsGood _ (ok-ne-undefined _, tt) _
          (λ e l t. (ok-ne-undefined _, hash_cell-IsFilled (without_all fields (e ∷ l)) t)))
        (hash_delete-Refines k fields)

  pub hash_get_all-IsSafe : IsSafe (hash_get_all k)
  hash_get_all-IsSafe =
      Refines-IsSafe k cell_hgetall _ (hash_get_all-IsWellFormed k)
        (on_hash-IsGood _ (ok-ne-undefined _, tt) _ (λ e l t. (ok-ne-undefined _, tt)))
        (hash_get_all_sort k)

  pub hash_length-IsSafe : IsSafe (hash_length k)
  hash_length-IsSafe =
      Refines-IsSafe k cell_hlen _ (hash_length-IsWellFormed k)
        (on_hash-IsGood _ (ok-ne-undefined _, tt) _ (λ e l t. (ok-ne-undefined _, tt)))
        (hash_length-Refines k)

  pub hash_exists-IsSafe : (field : Bytes) → IsSafe (hash_exists k field)
  hash_exists-IsSafe field =
      Refines-IsSafe k (cell_hexists field) _ (hash_exists-IsWellFormed k field)
        (on_hash-IsGood _ (ok-ne-undefined _, tt) _ (λ e l t. (ok-ne-undefined _, tt)))
        (hash_exists-Refines k field)

added-HasElements :
    (m : Bytes) (s : List Bytes) → HasElements (members (if contains m s then s else m ∷ s))
added-HasElements m [] = unfold contains in tt
added-HasElements m (x ∷ s) = elim (Bool-cases (contains m (x ∷ s))) [
  | inl old ↦ rw old tt
  | inr new ↦ rw new tt
]

add_all-HasElements :
    (ms s : List Bytes) → HasElements (members s) → HasElements (members (add_all ms s))
add_all-HasElements [] s h = h
add_all-HasElements (m ∷ ms) s h =
    add_all-HasElements ms (if contains m s then s else m ∷ s) (added-HasElements m s)

pub set_add-IsSafe : (k m : Bytes) (ms : List Bytes) → IsSafe (set_add k (m ∷ ms))
set_add-IsSafe k m ms =
    Refines-IsSafe k (cell_sadd (m ∷ ms)) _ (set_add-IsWellFormed k (m ∷ ms))
      (on_set-IsGood _ (ok-ne-undefined _, stored []) _
        (λ v l t. (ok-ne-undefined _, stored (v ∷ l))))
      (set_add-Refines k (m ∷ ms))
  where
    stored : (s : List Bytes) → HasElements (members (add_all (m ∷ ms) s))
    stored s = add_all-HasElements ms (if contains m s then s else m ∷ s) (added-HasElements m s)

set_cell-IsFilled : (s : List Bytes) (t : ℤ) → IsFilled (set_cell s t)
set_cell-IsFilled [] t = tt
set_cell-IsFilled (m ∷ s) t = tt

module _ (k : Bytes) where
  pub set_remove-IsSafe : (ms : List Bytes) → IsSafe (set_remove k ms)
  set_remove-IsSafe ms =
      Refines-IsSafe k (cell_srem ms) _ (set_remove-IsWellFormed k ms)
        (on_set-IsGood _ (ok-ne-undefined _, tt) _
          (λ v l t. (ok-ne-undefined _, set_cell-IsFilled (remove_all ms (v ∷ l)) t)))
        (set_remove-Refines k ms)

  pub set_members-IsSafe : IsSafe (set_members k)
  set_members-IsSafe =
      Refines-IsSafe k cell_smembers _ (set_members-IsWellFormed k)
        (on_set-IsGood _ (ok-ne-undefined _, tt) _ (λ v l t. (ok-ne-undefined _, tt)))
        (set_members_sort k)

  pub set_is_member-IsSafe : (m : Bytes) → IsSafe (set_is_member k m)
  set_is_member-IsSafe m =
      Refines-IsSafe k (cell_sismember m) _ (set_is_member-IsWellFormed k m)
        (on_set-IsGood _ (ok-ne-undefined _, tt) _ (λ v l t. (ok-ne-undefined _, tt)))
        (set_is_member-Refines k m)

  pub set_cardinality-IsSafe : IsSafe (set_cardinality k)
  set_cardinality-IsSafe =
      Refines-IsSafe k cell_scard _ (set_cardinality-IsWellFormed k)
        (on_set-IsGood _ (ok-ne-undefined _, tt) _ (λ v l t. (ok-ne-undefined _, tt)))
        (set_cardinality-Refines k)
