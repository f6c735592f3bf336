-- ===== src/Commands/Hashes.antt =====
-- src/commands.cpp, commands on hashes.
use flash_kv.Common.{
  ◌%◌, not, Option, none, some, List, [], ◌∷◌, Bytes, codes, if◌then◌else◌, ltb, ◌==◌, length,
  Assoc,
}
use flash_kv.Common.Int.{pos}
use flash_kv.Common.Exec.{pure, raise, undefined, ◌>>=◌, ◌>>◌}
use flash_kv.Database.Hashes.{
  hash_set, hash_get, hash_delete, hash_get_all, hash_length, hash_exists,
}
use flash_kv.Resp.Encode.{resp_error, resp_integer, resp_array}
use flash_kv.Commands.Processor.{Command, Arguments, call, propagate, signed, nullable_bulk}
use flash_kv.Commands.Keyspace.{propagate_if}

-- The loop of `hset`; `none` is a read past the end.
unfoldable pub pairs_of : List Bytes → Option (Assoc Bytes)
pairs_of [] = some []
pairs_of (field ∷ []) = none
pairs_of (field ∷ value ∷ rest) = elim (pairs_of rest) [
  | none ↦ none
  | some pairs ↦ some ((field, value) ∷ pairs)
]

unfoldable pub set_pairs : Arguments → Bytes → Option (Assoc Bytes) → Command Bytes
unfolding propagate signed
set_pairs arguments key none = raise undefined
set_pairs arguments key (some fields) = do
  added ← call (hash_set key fields)
  propagate arguments
  pure (resp_integer (signed added))

unfoldable pub hset : Arguments → Command Bytes
unfolding pairs_of set_pairs
hset (name ∷ key ∷ fields) =
    if not (length (name ∷ key ∷ fields) % 2 == 0)
    then pure (resp_error (codes "wrong number of arguments for 'hset' command"))
    else set_pairs (name ∷ key ∷ fields) key (pairs_of fields)
hset _ = raise undefined

unfoldable pub hget : Arguments → Command Bytes
hget (_ ∷ key ∷ field ∷ _) = do value ← call (hash_get key field); pure (nullable_bulk value)
hget _ = raise undefined

unfoldable pub hdel : Arguments → Command Bytes
unfolding propagate_if signed
hdel (name ∷ key ∷ fields) = do
  removed ← call (hash_delete key fields)
  propagate_if (ltb 0 removed) (name ∷ key ∷ fields)
  pure (resp_integer (signed removed))
hdel _ = raise undefined

unfoldable pub flattened : Assoc Bytes → List Bytes
flattened [] = []
flattened ((field, value) ∷ h) = field ∷ value ∷ flattened h

unfoldable pub fields_of : Assoc Bytes → List Bytes
fields_of [] = []
fields_of ((field, value) ∷ h) = field ∷ fields_of h

unfoldable pub values_of : Assoc Bytes → List Bytes
values_of [] = []
values_of ((field, value) ∷ h) = value ∷ values_of h

unfoldable pub hgetall : Arguments → Command Bytes
unfolding flattened
hgetall (_ ∷ key ∷ _) = do h ← call (hash_get_all key); pure (resp_array (flattened h))
hgetall _ = raise undefined

unfoldable pub hlen : Arguments → Command Bytes
unfolding signed
hlen (_ ∷ key ∷ _) = do size ← call (hash_length key); pure (resp_integer (signed size))
hlen _ = raise undefined

unfoldable pub hexists : Arguments → Command Bytes
hexists (_ ∷ key ∷ field ∷ _) = do
  there ← call (hash_exists key field)
  pure (resp_integer (if there then pos 1 else pos 0))
hexists _ = raise undefined

unfoldable pub hkeys : Arguments → Command Bytes
unfolding fields_of
hkeys (_ ∷ key ∷ _) = do h ← call (hash_get_all key); pure (resp_array (fields_of h))
hkeys _ = raise undefined

unfoldable pub hvals : Arguments → Command Bytes
unfolding values_of
hvals (_ ∷ key ∷ _) = do h ← call (hash_get_all key); pure (resp_array (values_of h))
hvals _ = raise undefined
