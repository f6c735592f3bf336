-- ===== src/Commands/Table.antt =====
-- src/commands.cpp, `commandTable`.
use flash_kv.Common.{Bool, true, false, [], ◌∷◌, Bytes, codes, Assoc}
use flash_kv.Common.Int.{ℤ, pos, negsuc}
use flash_kv.Commands.Processor.{Command, Arguments}
use flash_kv.Commands.Server.{
  ping, echo, select, command_info, dbsize, flushall, info, config, memory,
}
use flash_kv.Commands.Keyspace.{
  del, exists, type_of, keys, expire, pexpire, expireat, pexpireat, ttl, pttl, persist,
}
use flash_kv.Commands.Strings.{set, get, mset, mget, incr, decr, incrby, decrby, append, strlen}
use flash_kv.Commands.Lists.{lpush, rpush, lpop, rpop, lrange, llen, lindex}
use flash_kv.Commands.Hashes.{hset, hget, hdel, hgetall, hlen, hexists, hkeys, hvals}
use flash_kv.Commands.Sets.{sadd, srem, smembers, sismember, scard}

-- `arity` is the number of arguments, the name included, or -N for N or more.
pub record CommandSpec : Type 0 where
  pub handler : Arguments → Command Bytes
  pub arity : ℤ
  pub write : Bool
  pub deny_oom : Bool

abbrev pub spec : (Arguments → Command Bytes) → ℤ → Bool → Bool → CommandSpec
spec handler arity write deny_oom = record {
  handler = handler;
  arity = arity;
  write = write;
  deny_oom = deny_oom;
}

unfoldable pub command_table : Assoc CommandSpec
command_table =
    (codes "PING", spec ping (negsuc 0) false false)
    ∷ (codes "ECHO", spec echo (pos 2) false false)
    ∷ (codes "SELECT", spec select (pos 2) false false)
    ∷ (codes "COMMAND", spec command_info (negsuc 0) false false)
    ∷ (codes "DBSIZE", spec dbsize (pos 1) false false)
    ∷ (codes "FLUSHALL", spec flushall (negsuc 0) true false)
    ∷ (codes "FLUSHDB", spec flushall (negsuc 0) true false)
    ∷ (codes "INFO", spec info (negsuc 0) false false)
    ∷ (codes "CONFIG", spec config (negsuc 1) false false)
    ∷ (codes "MEMORY", spec memory (negsuc 1) false false)
    ∷ (codes "DEL", spec del (negsuc 1) true false)
    ∷ (codes "UNLINK", spec del (negsuc 1) true false)
    ∷ (codes "EXISTS", spec exists (negsuc 1) false false)
    ∷ (codes "TYPE", spec type_of (pos 2) false false)
    ∷ (codes "KEYS", spec keys (pos 2) false false)
    ∷ (codes "EXPIRE", spec expire (pos 3) true false)
    ∷ (codes "PEXPIRE", spec pexpire (pos 3) true false)
    ∷ (codes "EXPIREAT", spec expireat (pos 3) true false)
    ∷ (codes "PEXPIREAT", spec pexpireat (pos 3) true false)
    ∷ (codes "TTL", spec ttl (pos 2) false false)
    ∷ (codes "PTTL", spec pttl (pos 2) false false)
    ∷ (codes "PERSIST", spec persist (pos 2) true false)
    ∷ (codes "SET", spec set (negsuc 2) true true)
    ∷ (codes "GET", spec get (pos 2) false false)
    ∷ (codes "MSET", spec mset (negsuc 2) true true)
    ∷ (codes "MGET", spec mget (negsuc 1) false false)
    ∷ (codes "INCR", spec incr (pos 2) true true)
    ∷ (codes "DECR", spec decr (pos 2) true true)
    ∷ (codes "INCRBY", spec incrby (pos 3) true true)
    ∷ (codes "DECRBY", spec decrby (pos 3) true true)
    ∷ (codes "APPEND", spec append (pos 3) true true)
    ∷ (codes "STRLEN", spec strlen (pos 2) false false)
    ∷ (codes "LPUSH", spec lpush (negsuc 2) true true)
    ∷ (codes "RPUSH", spec rpush (negsuc 2) true true)
    ∷ (codes "LPOP", spec lpop (pos 2) true false)
    ∷ (codes "RPOP", spec rpop (pos 2) true false)
    ∷ (codes "LRANGE", spec lrange (pos 4) false false)
    ∷ (codes "LLEN", spec llen (pos 2) false false)
    ∷ (codes "LINDEX", spec lindex (pos 3) false false)
    ∷ (codes "HSET", spec hset (negsuc 3) true true)
    ∷ (codes "HGET", spec hget (pos 3) false false)
    ∷ (codes "HDEL", spec hdel (negsuc 2) true false)
    ∷ (codes "HGETALL", spec hgetall (pos 2) false false)
    ∷ (codes "HLEN", spec hlen (pos 2) false false)
    ∷ (codes "HEXISTS", spec hexists (pos 3) false false)
    ∷ (codes "HKEYS", spec hkeys (pos 2) false false)
    ∷ (codes "HVALS", spec hvals (pos 2) false false)
    ∷ (codes "SADD", spec sadd (negsuc 2) true true)
    ∷ (codes "SREM", spec srem (negsuc 2) true false)
    ∷ (codes "SMEMBERS", spec smembers (pos 2) false false)
    ∷ (codes "SISMEMBER", spec sismember (pos 3) false false)
    ∷ (codes "SCARD", spec scard (pos 2) false false)
    ∷ []
