-- ===== src/Commands/Lists.antt =====
-- src/commands.cpp, commands on lists.
use flash_kv.Common.{Option, none, some, ◌∷◌, Bytes, is_some}
use flash_kv.Common.Int.{ℤ}
use flash_kv.Common.Exec.{pure, raise, undefined, ◌>>=◌, ◌>>◌}
use flash_kv.Database.State.{ListSide, left, right}
use flash_kv.Database.Lists.{list_push, list_pop, list_range, list_length, list_index}
use flash_kv.Resp.Encode.{resp_integer, resp_array}
use flash_kv.Commands.Text.{parse_integer}
use flash_kv.Commands.Processor.{
  Command, Arguments, call, propagate, signed, not_an_integer, nullable_bulk,
}
use flash_kv.Commands.Keyspace.{propagate_if}

abbrev push : ListSide → Arguments → Command Bytes
push side (name ∷ key ∷ values) = do
  size ← call (list_push key values side)
  propagate (name ∷ key ∷ values)
  pure (resp_integer (signed size))
push side _ = raise undefined

unfoldable pub lpush : Arguments → Command Bytes
unfolding propagate signed
lpush arguments = push left arguments

unfoldable pub rpush : Arguments → Command Bytes
unfolding propagate signed
rpush arguments = push right arguments

abbrev pop : ListSide → Arguments → Command Bytes
pop side (name ∷ key ∷ rest) = do
  value ← call (list_pop key side)
  propagate_if (is_some value) (name ∷ key ∷ rest)
  pure (nullable_bulk value)
pop side _ = raise undefined

unfoldable pub lpop : Arguments → Command Bytes
unfolding propagate_if
lpop arguments = pop left arguments

unfoldable pub rpop : Arguments → Command Bytes
unfolding propagate_if
rpop arguments = pop right arguments

-- LRANGE with its two numbers read.
unfoldable pub range_of : Bytes → Option ℤ → Option ℤ → Command Bytes
range_of key (some start) (some stop) = do
  values ← call (list_range key start stop)
  pure (resp_array values)
range_of key (some start) none = pure not_an_integer
range_of key none stop = pure not_an_integer

unfoldable pub lrange : Arguments → Command Bytes
unfolding parse_integer range_of
lrange (_ ∷ key ∷ start ∷ stop ∷ _) = range_of key (parse_integer start) (parse_integer stop)
lrange _ = raise undefined

unfoldable pub llen : Arguments → Command Bytes
unfolding signed
llen (_ ∷ key ∷ _) = do size ← call (list_length key); pure (resp_integer (signed size))
llen _ = raise undefined

unfoldable pub lindex : Arguments → Command Bytes
unfolding parse_integer
lindex (_ ∷ key ∷ index ∷ _) = elim (parse_integer index) [
  | none ↦ pure not_an_integer
  | some i ↦ do value ← call (list_index key i); pure (nullable_bulk value)
]
lindex _ = raise undefined
