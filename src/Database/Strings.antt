-- ===== src/Database/Strings.antt =====
-- src/database.cpp, keyspace and string operations of `Database`.
use flash_kv.Common.{ℕ, Bool, true, false, Option, none, some, [], ◌∷◌, ◌++◌, Bytes, codes, length}
use flash_kv.Common.Int.{ℤ, checked_add}
use flash_kv.Common.Decimal.{parse_all, to_string_ℤ}
use flash_kv.Common.Exec.{not_integer, overflow, pure, or_throw, run, ◌>>=◌, ◌>>◌}
use flash_kv.Database.State.{
  Db, Database, Entry, ValueType, string, value_type, find_live, create, erase, touch, as_string,
  add_memory, remove_memory, store_value, count_hit, count_miss, create_node,
}

unfoldable pub del : Bytes → Db Bool
del key = do
  node ← find_live key
  elim node [ none ↦ pure false | some _ ↦ run (erase key) >> pure true ]

unfoldable pub exists : Bytes → Db Bool
exists key = do node ← find_live key; elim node [ none ↦ pure false | some _ ↦ pure true ]

unfoldable pub type_of : Bytes → Db (Option ValueType)
unfolding value_type
type_of key = do
  node ← find_live key
  elim node [ none ↦ pure none | some e ↦ pure (some (value_type e.value)) ]

abbrev pub replace : Bytes → Option Entry → Database → Database
replace key none db = db
replace key (some _) db = erase key db

unfoldable pub set : Bytes → Bytes → Db (Unit {0})
set key value = do node ← find_live key; run (replace key node); run (create key (string value))

unfoldable pub get : Bytes → Db (Option Bytes)
unfolding as_string
get key = do
  node ← find_live key
  elim node [
    | none ↦ run count_miss >> pure none
    | some e ↦ do value ← as_string e; run count_hit; run (touch key); pure (some value)
  ]

-- parseStrictInteger.
unfoldable pub parse_strict_integer : Bytes → Option ℤ
unfolding parse_all
parse_strict_integer [] = none
parse_strict_integer (c ∷ s) = parse_all (c ∷ s)

-- `removeMemory(node, text.size()); text = updated; addMemory(node, text.size());`
unfoldable pub replace_text : Bytes → Bytes → Bytes → Database → Database
replace_text key text updated db =
    add_memory key (length updated)
      (store_value key (string updated) (remove_memory key (length text) db))

unfoldable pub increment_by : Bytes → ℤ → Db ℤ
unfolding as_string parse_strict_integer checked_add to_string_ℤ replace_text
increment_by key delta = do
  node ← find_live key
  e ← elim node [ none ↦ create_node key (string (codes "0")) | some e ↦ pure e ]
  text ← as_string e
  current ← or_throw (parse_strict_integer text) not_integer
  result ← or_throw (checked_add current delta) overflow
  run (replace_text key text (to_string_ℤ result))
  run (touch key)
  pure result

-- `text += value; addMemory(node, value.size());`
unfoldable pub extend_text : Bytes → Bytes → Bytes → Database → Database
extend_text key text value db =
    add_memory key (length value) (store_value key (string (text ++ value)) db)

unfoldable pub append : Bytes → Bytes → Db ℕ
unfolding as_string extend_text
append key value = do
  node ← find_live key
  elim node [
    | none ↦ run (create key (string value)) >> pure (length value)
    | some e ↦ do
      text ← as_string e
      run (extend_text key text value)
      run (touch key)
      pure (length (text ++ value))
  ]

unfoldable pub string_length : Bytes → Db ℕ
unfolding as_string
string_length key = do
  node ← find_live key
  elim node [ none ↦ pure 0 | some e ↦ do text ← as_string e; pure (length text) ]
