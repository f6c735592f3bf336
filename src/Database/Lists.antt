-- ===== src/Database/Lists.antt =====
-- src/database.cpp, list operations of `Database`.
use flash_kv.Common.{
  ℕ, ◌+◌, ◌-◌, ◌||◌, Option, none, some, List, [], ◌∷◌, ◌++◌, Bytes, if◌then◌else◌, length,
  get_elem?, take, drop, back?, drop_last,
}
use flash_kv.Common.Int.{ℤ, pos, negsuc, pos_part, ◌+ℤ◌, ◌-ℤ◌, leb_ℤ, ltb_ℤ}
use flash_kv.Common.Exec.{pure, raise, undefined, run, ◌>>=◌, ◌>>◌}
use flash_kv.Database.State.{
  Db, Database, ListSide, left, right, list, element_cost, find_live, create_node, erase, touch,
  as_list, add_memory, remove_memory, store_value,
}

abbrev pub pushed : ListSide → Bytes → List Bytes → List Bytes
pushed left v l = v ∷ l
pushed right v l = l ++ v ∷ []

-- One round of the loop of `listPush`.
unfoldable pub push_value : Bytes → ListSide → Bytes → List Bytes → Database → Database
push_value key side v l db =
    add_memory key (element_cost v) (store_value key (list (pushed side v l)) db)

unfoldable pub push_loop : Bytes → ListSide → List Bytes → List Bytes → Db (List Bytes)
unfolding push_value
push_loop key side [] l = pure l
push_loop key side (v ∷ values) l = do
  run (push_value key side v l)
  push_loop key side values (pushed side v l)

unfoldable pub list_push : Bytes → List Bytes → ListSide → Db ℕ
unfolding push_loop as_list
list_push key values side = do
  node ← find_live key
  e ← elim node [ none ↦ create_node key (list []) | some e ↦ pure e ]
  l ← as_list e
  l' ← push_loop key side values l
  run (touch key)
  pure (length l')

-- `front()` and `pop_front()`, or `back()` and `pop_back()`; `none` where the list is empty.
unfoldable pub popped : ListSide → List Bytes → Option (Bytes × List Bytes)
popped left [] = none
popped left (v ∷ l) = some (v, l)
popped right l = elim (back? l) [ none ↦ none | some v ↦ some (v, drop_last l) ]

-- `if (list.empty()) erase(node); else touch(node);`
abbrev pub keep_or_drop : Bytes → List Bytes → Database → Database
keep_or_drop key [] db = erase key db
keep_or_drop key (_ ∷ _) db = touch key db

-- The list without the value, and `removeMemory(node, elementCost(value))`.
unfoldable pub pop_value : Bytes → Bytes → List Bytes → Database → Database
pop_value key v l db = remove_memory key (element_cost v) (store_value key (list l) db)

unfoldable pub list_pop : Bytes → ListSide → Db (Option Bytes)
unfolding as_list popped pop_value
list_pop key side = do
  node ← find_live key
  elim node [
    | none ↦ pure none
    | some e ↦ do
      l ← as_list e
      elim (popped side l) [
        | none ↦ raise undefined
        | some (v, rest) ↦ do run (pop_value key v rest); run (keep_or_drop key rest); pure (some v)
      ]
  ]

abbrev pub from_end : ℕ → ℤ → ℤ
from_end n (pos i) = pos i
from_end n (negsuc i) = negsuc i +ℤ pos n

-- std::max(i, 0) and std::min(i, n - 1).
abbrev pub max0 : ℤ → ℤ
max0 (pos i) = pos i
max0 (negsuc i) = pos 0

abbrev pub min_last : ℕ → ℤ → ℤ
min_last n i = let last = pos n -ℤ pos 1 in if ltb_ℤ last i then last else i

-- The bounds `start` and `stop` of the elements to return, if there are any.
unfoldable pub range_bounds : ℕ → ℤ → ℤ → Option (ℕ × ℕ)
unfolding ◌+ℤ◌ ◌-ℤ◌
range_bounds n start stop =
    let first = max0 (from_end n start) in
    let last = min_last n (from_end n stop) in
    if ltb_ℤ last first || leb_ℤ (pos n) first then none else some (pos_part first, pos_part last)

unfoldable pub list_range : Bytes → ℤ → ℤ → Db (List Bytes)
unfolding as_list range_bounds
list_range key start stop = do
  node ← find_live key
  elim node [
    | none ↦ pure []
    | some e ↦ do
      l ← as_list e
      elim (range_bounds (length l) start stop) [
        | none ↦ pure []
        | some (first, last) ↦ do run (touch key); pure (take (last + 1 - first) (drop first l))
      ]
  ]

-- The position that an index names, if it names one.
unfoldable pub index_of : ℕ → ℤ → Option ℕ
unfolding ◌+ℤ◌
index_of n index =
    let i = from_end n index in
    if ltb_ℤ i (pos 0) || leb_ℤ (pos n) i then none else some (pos_part i)

unfoldable pub list_index : Bytes → ℤ → Db (Option Bytes)
unfolding as_list index_of
list_index key index = do
  node ← find_live key
  elim node [
    | none ↦ pure none
    | some e ↦ do
      l ← as_list e
      elim (index_of (length l) index) [
        | none ↦ pure none
        | some i ↦ run (touch key) >> pure (get_elem? l i)
      ]
  ]

unfoldable pub list_length : Bytes → Db ℕ
unfolding as_list
list_length key = do
  node ← find_live key
  elim node [ none ↦ pure 0 | some e ↦ do l ← as_list e; pure (length l) ]
