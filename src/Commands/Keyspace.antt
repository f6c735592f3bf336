-- ===== src/Commands/Keyspace.antt =====
-- src/commands.cpp, commands on keys and deadlines. A handler that reads past its arguments is
-- `undefined`: `execute` tests their number before.
use flash_kv.Common.{
  ℕ, ◌+◌, Bool, true, false, Option, none, some, List, [], ◌∷◌, ◌++◌, Bytes, codes, if◌then◌else◌,
  ltb,
}
use flash_kv.Common.Int.{ℤ, pos, checked_add, checked_mul}
use flash_kv.Common.Exec.{pure, raise, undefined, ◌>>=◌, ◌>>◌}
use flash_kv.Database.State.{ValueType}
use flash_kv.Database.Names.{value_type_name}
use flash_kv.Database.Strings.{del as db_del, exists as db_exists, type_of as db_type}
use flash_kv.Database.Keyspace.{keys as db_keys}
use flash_kv.Database.Expiry.{
  read_clock, expire_at_ms, persist as db_persist, ttl as db_ttl, ttl_ms as db_ttl_ms,
}
use flash_kv.Resp.Encode.{resp_simple_string, resp_error, resp_integer, resp_array}
use flash_kv.Commands.Text.{lowercase, parse_integer}
use flash_kv.Commands.Processor.{
  Command, Arguments, call, propagate, propagate_expiry, not_an_integer,
}

-- The loop of `del`.
unfoldable pub del_loop : List Bytes → ℕ → Command ℕ
unfolding db_del
del_loop [] deleted = pure deleted
del_loop (key ∷ keys) deleted = do
  there ← call (db_del key)
  del_loop keys (if there then deleted + 1 else deleted)

unfoldable pub propagate_if : Bool → Arguments → Command (Unit {0})
unfolding propagate
propagate_if true arguments = propagate arguments
propagate_if false arguments = pure tt

unfoldable pub del : Arguments → Command Bytes
unfolding del_loop propagate_if
del [] = raise undefined
del (name ∷ keys) = do
  deleted ← del_loop keys 0
  propagate_if (ltb 0 deleted) (name ∷ keys)
  pure (resp_integer (pos deleted))

-- The loop of `exists`.
unfoldable pub exists_loop : List Bytes → ℕ → Command ℕ
unfolding db_exists
exists_loop [] found = pure found
exists_loop (key ∷ keys) found = do
  there ← call (db_exists key)
  exists_loop keys (if there then found + 1 else found)

unfoldable pub exists : Arguments → Command Bytes
unfolding exists_loop
exists [] = raise undefined
exists (name ∷ keys) = do found ← exists_loop keys 0; pure (resp_integer (pos found))

abbrev pub type_text : Option ValueType → Bytes
type_text none = codes "none"
type_text (some type_) = value_type_name type_

unfoldable pub type_of : Arguments → Command Bytes
type_of (_ ∷ key ∷ _) = do type_ ← call (db_type key); pure (resp_simple_string (type_text type_))
type_of _ = raise undefined

unfoldable pub keys : Arguments → Command Bytes
keys (_ ∷ pattern ∷ _) = do found ← call (db_keys pattern); pure (resp_array found)
keys _ = raise undefined

-- The deadline of `expireGeneric`; `none` is an overflow. The clock is read only for a relative one.
unfoldable pub deadline : Option ℤ → Bool → Command (Option ℤ)
unfolding checked_add
deadline none absolute = pure none
deadline (some ms) true = pure (some ms)
deadline (some ms) false = do current ← call read_clock; pure (checked_add ms current)

-- A deadline in the past has deleted the key.
unfoldable pub propagate_deadline : Bool → Bytes → ℤ → Command (Unit {0})
unfolding propagate propagate_expiry
propagate_deadline true key time = propagate_expiry key time
propagate_deadline false key time = propagate (codes "DEL" ∷ key ∷ [])

unfoldable pub set_deadline : Bytes → ℤ → Command Bytes
unfolding propagate_deadline
set_deadline key time = do
  there ← call (expire_at_ms key time)
  if there
      then (do
        kept ← call (db_exists key)
        propagate_deadline kept key time
        pure (resp_integer (pos 1)))
      else pure (resp_integer (pos 0))

unfoldable pub expire_amount : Bytes → Bytes → Option ℤ → ℤ → Bool → Command Bytes
unfolding deadline set_deadline checked_mul
expire_amount name key none unit_ms absolute = pure not_an_integer
expire_amount name key (some amount) unit_ms absolute = do
  time ← deadline (checked_mul amount unit_ms) absolute
  elim time [
    | none ↦
        pure (resp_error (codes "invalid expire time in '" ++ lowercase name ++ codes "' command"))
    | some ms ↦ set_deadline key ms
  ]

unfoldable pub expire_generic : Arguments → ℤ → Bool → Command Bytes
unfolding expire_amount parse_integer
expire_generic (name ∷ key ∷ amount ∷ _) unit_ms absolute =
    expire_amount name key (parse_integer amount) unit_ms absolute
expire_generic _ unit_ms absolute = raise undefined

unfoldable pub expire : Arguments → Command Bytes
unfolding expire_generic
expire arguments = expire_generic arguments (pos 1000) false

unfoldable pub pexpire : Arguments → Command Bytes
unfolding expire_generic
pexpire arguments = expire_generic arguments (pos 1) false

unfoldable pub expireat : Arguments → Command Bytes
unfolding expire_generic
expireat arguments = expire_generic arguments (pos 1000) true

unfoldable pub pexpireat : Arguments → Command Bytes
unfolding expire_generic
pexpireat arguments = expire_generic arguments (pos 1) true

unfoldable pub ttl : Arguments → Command Bytes
ttl (_ ∷ key ∷ _) = do left ← call (db_ttl key); pure (resp_integer left)
ttl _ = raise undefined

unfoldable pub pttl : Arguments → Command Bytes
pttl (_ ∷ key ∷ _) = do left ← call (db_ttl_ms key); pure (resp_integer left)
pttl _ = raise undefined

unfoldable pub persist : Arguments → Command Bytes
unfolding propagate
persist (name ∷ key ∷ rest) = do
  done ← call (db_persist key)
  if done
      then (do propagate (name ∷ key ∷ rest); pure (resp_integer (pos 1)))
      else pure (resp_integer (pos 0))
persist _ = raise undefined
