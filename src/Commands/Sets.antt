-- ===== src/Commands/Sets.antt =====
-- src/commands.cpp, commands on sets.
use flash_kv.Common.{◌∷◌, Bytes, if◌then◌else◌, ltb}
use flash_kv.Common.Int.{pos}
use flash_kv.Common.Exec.{pure, raise, undefined, ◌>>=◌, ◌>>◌}
use flash_kv.Database.Sets.{set_add, set_remove, set_members, set_is_member, set_cardinality}
use flash_kv.Resp.Encode.{resp_integer, resp_array}
use flash_kv.Commands.Processor.{Command, Arguments, call, signed}
use flash_kv.Commands.Keyspace.{propagate_if}

unfoldable pub sadd : Arguments → Command Bytes
unfolding propagate_if signed
sadd (name ∷ key ∷ members) = do
  added ← call (set_add key members)
  propagate_if (ltb 0 added) (name ∷ key ∷ members)
  pure (resp_integer (signed added))
sadd _ = raise undefined

unfoldable pub srem : Arguments → Command Bytes
unfolding propagate_if signed
srem (name ∷ key ∷ members) = do
  removed ← call (set_remove key members)
  propagate_if (ltb 0 removed) (name ∷ key ∷ members)
  pure (resp_integer (signed removed))
srem _ = raise undefined

unfoldable pub smembers : Arguments → Command Bytes
smembers (_ ∷ key ∷ _) = do found ← call (set_members key); pure (resp_array found)
smembers _ = raise undefined

unfoldable pub sismember : Arguments → Command Bytes
sismember (_ ∷ key ∷ member ∷ _) = do
  there ← call (set_is_member key member)
  pure (resp_integer (if there then pos 1 else pos 0))
sismember _ = raise undefined

unfoldable pub scard : Arguments → Command Bytes
unfolding signed
scard (_ ∷ key ∷ _) = do size ← call (set_cardinality key); pure (resp_integer (signed size))
scard _ = raise undefined
