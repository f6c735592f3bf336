-- ===== src/Database/Sets.antt =====
-- src/database.cpp, set operations of `Database`.
use flash_kv.Common.{
  ℕ, ◌+◌, Bool, false, none, some, List, [], ◌∷◌, Bytes, if◌then◌else◌, length, contains, remove,
}
use flash_kv.Common.Exec.{pure, run, ◌>>=◌, ◌>>◌}
use flash_kv.Database.State.{
  Db, Database, members, element_cost, find_live, create_node, touch, as_set, add_memory,
  remove_memory, store_value,
}
use flash_kv.Database.Hashes.{sort, drop_if_empty}

-- `set.insert(member)` of a new member, with `addMemory`.
unfoldable pub add_member : Bytes → Bytes → List Bytes → Database → Database
add_member key m s db = add_memory key (element_cost m) (store_value key (members (m ∷ s)) db)

unfoldable pub add_members : Bytes → List Bytes → List Bytes → ℕ → Db ℕ
unfolding add_member
add_members key [] s added = pure added
add_members key (m ∷ ms) s added =
    let rest = add_members key ms s added in
    let rest' = add_members key ms (m ∷ s) (added + 1) in
    if contains m s then rest else run (add_member key m s) >> rest'

unfoldable pub set_add : Bytes → List Bytes → Db ℕ
unfolding add_members as_set
set_add key ms = do
  node ← find_live key
  e ← elim node [ none ↦ create_node key (members []) | some e ↦ pure e ]
  s ← as_set e
  added ← add_members key ms s 0
  run (touch key)
  pure added

-- `set.erase(member)` of a member, with `removeMemory`.
unfoldable pub remove_member : Bytes → Bytes → List Bytes → Database → Database
remove_member key m s db =
    remove_memory key (element_cost m) (store_value key (members (remove m s)) db)

unfoldable pub remove_members : Bytes → List Bytes → List Bytes → ℕ → Db (List Bytes × ℕ)
unfolding remove_member
remove_members key [] s removed = pure (s, removed)
remove_members key (m ∷ ms) s removed =
    let rest = remove_members key ms s removed in
    let rest' = remove_members key ms (remove m s) (removed + 1) in
    if contains m s then run (remove_member key m s) >> rest' else rest

unfoldable pub set_remove : Bytes → List Bytes → Db ℕ
unfolding remove_members as_set
set_remove key ms = do
  node ← find_live key
  elim node [
    | none ↦ pure 0
    | some e ↦ do
      s ← as_set e
      (s', removed) ← remove_members key ms s 0
      run (drop_if_empty key s')
      pure removed
  ]

unfoldable pub set_members : Bytes → Db (List Bytes)
unfolding as_set sort
set_members key = do
  node ← find_live key
  elim node [ none ↦ pure [] | some e ↦ do s ← as_set e; run (touch key); pure (sort s) ]

unfoldable pub set_is_member : Bytes → Bytes → Db Bool
unfolding as_set
set_is_member key member = do
  node ← find_live key
  elim node [ none ↦ pure false | some e ↦ do s ← as_set e; pure (contains member s) ]

unfoldable pub set_cardinality : Bytes → Db ℕ
unfolding as_set
set_cardinality key = do
  node ← find_live key
  elim node [ none ↦ pure 0 | some e ↦ do s ← as_set e; pure (length s) ]
