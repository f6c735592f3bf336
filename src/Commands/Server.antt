-- ===== src/Commands/Server.antt =====
-- src/commands.cpp, commands on the connection and the server.
use flash_kv.Common.{
  ℕ, ◌+◌, ◌/◌, Bool, true, false, ◌||◌, Option, none, some, List, [], ◌∷◌, ◌++◌, Bytes, codes,
  if◌then◌else◌, ◌==◌, ◌===◌, is_empty, Assoc,
}
use flash_kv.Common.Int.{ℤ, pos, negsuc, ◌-ℤ◌}
use flash_kv.Common.Decimal.{to_string, to_string_ℤ}
use flash_kv.Common.Exec.{pure, raise, undefined, run, ◌>>=◌, ◌>>◌}
use flash_kv.Database.State.{EvictionPolicy}
use flash_kv.Database.Names.{parse_eviction_policy, eviction_policy_name}
use flash_kv.Database.Glob.{glob_match}
use flash_kv.Database.Keyspace.{size, volatile_key_count, clear}
use flash_kv.Database.Expiry.{read_clock, set_max_memory, set_eviction_policy, KeyInfo, inspect}
use flash_kv.Aof.Flush.{AppendOnlyFile, healthy}
use flash_kv.Resp.Encode.{
  resp_simple_string, resp_error, resp_bulk_string, resp_null, resp_integer, resp_array,
  resp_encoded_array, crlf,
}
use flash_kv.Commands.Text.{uppercase, lowercase, parse_memory_size, format_bytes_human}
use flash_kv.Commands.Processor.{
  Command, CommandProcessor, Arguments, call, gets, evict, propagate, signed,
}

unfoldable pub ping : Arguments → Command Bytes
ping (_ ∷ []) = pure (resp_simple_string (codes "PONG"))
ping (_ ∷ message ∷ []) = pure (resp_bulk_string message)
ping _ = pure (resp_error (codes "wrong number of arguments for 'ping' command"))

unfoldable pub echo : Arguments → Command Bytes
echo (_ ∷ message ∷ _) = pure (resp_bulk_string message)
echo _ = raise undefined

unfoldable pub select : Arguments → Command Bytes
select (_ ∷ index ∷ _) =
    if index === codes "0"
    then pure (resp_simple_string (codes "OK"))
    else pure (resp_error (codes "DB index is out of range"))
select _ = raise undefined

unfoldable pub command_info : Arguments → Command Bytes
command_info arguments = pure (resp_encoded_array [])

unfoldable pub dbsize : Arguments → Command Bytes
unfolding size signed
dbsize arguments = gets (λ p. resp_integer (signed (size p.database)))

unfoldable pub flushall : Arguments → Command Bytes
unfolding clear propagate
flushall arguments = do
  call (run clear)
  propagate (codes "FLUSHALL" ∷ [])
  pure (resp_simple_string (codes "OK"))

-- FLASHKV_VERSION.
abbrev version : Bytes
version = codes "0.2.0"

-- Division of long long, towards zero.
abbrev quotient : ℤ → ℕ → ℤ
quotient (pos n) d = pos (n / d)
quotient (negsuc n) d = pos 0 -ℤ pos ((n + 1) / d)

abbrev line : Bytes → Bytes → Bytes
line label value = label ++ value ++ crlf

abbrev attached : Option AppendOnlyFile → Bool
attached none = false
attached (some aof) = true

abbrev write_status : Option AppendOnlyFile → Bytes
write_status none = codes "ok"
write_status (some aof) = if healthy aof then codes "ok" else codes "err"

-- The sections of INFO, at the time `current`.
unfoldable pub info_sections : ℤ → CommandProcessor → Assoc Bytes
unfolding ◌-ℤ◌ to_string to_string_ℤ format_bytes_human eviction_policy_name size volatile_key_count
info_sections current p =
    let db = p.database in
    let stats = p.server_stats in
    let counts = db.statistics in
    (
      codes "server",
      line (codes "# Server") []
          ++ line (codes "flashkv_version:") version
          ++ line (codes "tcp_port:") (to_string stats.port)
          ++ line (codes "uptime_in_seconds:")
              (to_string_ℤ (quotient (current -ℤ stats.start_time_ms) 1000)),
    )
    ∷ (
      codes "clients",
      line (codes "# Clients") []
          ++ line (codes "connected_clients:") (to_string stats.connected_clients),
    )
    ∷ (
      codes "memory",
      line (codes "# Memory") []
          ++ line (codes "used_memory:") (to_string db.memory_used)
          ++ line (codes "used_memory_human:") (format_bytes_human db.memory_used)
          ++ line (codes "maxmemory:") (to_string db.memory_limit)
          ++ line (codes "maxmemory_human:") (format_bytes_human db.memory_limit)
          ++ line (codes "maxmemory_policy:") (eviction_policy_name db.policy),
    )
    ∷ (
      codes "persistence",
      line (codes "# Persistence") []
          ++ line (codes "aof_enabled:") (if attached p.aof then codes "1" else codes "0")
          ++ line (codes "aof_last_write_status:") (write_status p.aof),
    )
    ∷ (
      codes "stats",
      line (codes "# Stats") []
          ++ line (codes "total_connections_received:") (to_string stats.total_connections)
          ++ line (codes "total_commands_processed:") (to_string stats.total_commands)
          ++ line (codes "expired_keys:") (to_string counts.expired_keys)
          ++ line (codes "evicted_keys:") (to_string counts.evicted_keys)
          ++ line (codes "keyspace_hits:") (to_string counts.keyspace_hits)
          ++ line (codes "keyspace_misses:") (to_string counts.keyspace_misses),
    )
    ∷ (
      codes "keyspace",
      line (codes "# Keyspace") []
          ++ (if size db == 0
              then []
              else line (codes "db0:keys=")
                  (to_string (size db) ++ codes ",expires=" ++ to_string (volatile_key_count db))),
    )
    ∷ []

abbrev is_requested : Bytes → Bytes → Bool
is_requested requested name =
    requested === codes "all"
    || requested === codes "everything"
    || requested === codes "default"
    || requested === name

-- The loop over the sections.
unfoldable pub join_sections : Bytes → Assoc Bytes → Bytes → Bytes
join_sections requested [] output = output
join_sections requested ((name, body) ∷ sections) output = join_sections requested sections (
    if is_requested requested name
    then (if is_empty output then body else output ++ crlf ++ body)
    else output)

abbrev pub requested : Arguments → Bytes
requested (_ ∷ section ∷ _) = lowercase section
requested _ = codes "all"

unfoldable pub info : Arguments → Command Bytes
unfolding info_sections join_sections lowercase
info arguments = do
  current ← call read_clock
  sections ← gets (info_sections current)
  pure (resp_bulk_string (join_sections (requested arguments) sections []))

-- The parameters that CONFIG GET knows.
unfoldable pub parameters : CommandProcessor → Assoc Bytes
unfolding to_string eviction_policy_name
parameters p =
    (codes "maxmemory", to_string p.database.memory_limit)
    ∷ (codes "maxmemory-policy", eviction_policy_name p.database.policy)
    ∷ (codes "appendonly", if attached p.aof then codes "yes" else codes "no")
    ∷ (codes "port", to_string p.server_stats.port)
    ∷ (codes "save", [])
    ∷ []

-- The loop over the parameters.
unfoldable pub matching_parameters : Bytes → Assoc Bytes → List Bytes
matching_parameters pattern [] = []
matching_parameters pattern ((name, value) ∷ rest) =
    let others = matching_parameters pattern rest in
    if glob_match pattern name then name ∷ value ∷ others else others

unfoldable pub config_get : Bytes → Command Bytes
unfolding parameters matching_parameters lowercase
config_get pattern = do
  known ← gets parameters
  pure (resp_array (matching_parameters (lowercase pattern) known))

unfoldable pub set_limit : Option ℕ → Command Bytes
unfolding evict set_max_memory
set_limit none = pure (resp_error (codes "argument must be a memory value"))
set_limit (some bytes) = do
  call (run (set_max_memory bytes))
  _ ← evict
  pure (resp_simple_string (codes "OK"))

unfoldable pub set_policy : Option EvictionPolicy → Command Bytes
unfolding set_eviction_policy
set_policy none =
    pure (resp_error (codes "invalid maxmemory-policy; use noeviction or allkeys-lru"))
set_policy (some policy) = do
  call (run (set_eviction_policy policy))
  pure (resp_simple_string (codes "OK"))

unfoldable pub config_set : Bytes → Bytes → Command Bytes
unfolding lowercase parse_memory_size set_limit parse_eviction_policy set_policy
config_set parameter value =
    if lowercase parameter === codes "maxmemory"
    then set_limit (parse_memory_size value)
    else if lowercase parameter === codes "maxmemory-policy"
    then set_policy (parse_eviction_policy (lowercase value))
    else pure (resp_error (codes "Unsupported CONFIG parameter: " ++ parameter))

abbrev config_usage : Bytes
config_usage =
    resp_error (codes "unknown subcommand or wrong number of arguments for 'config' command")

unfoldable pub config : Arguments → Command Bytes
unfolding config_get config_set uppercase
config (_ ∷ subcommand ∷ pattern ∷ []) =
    if uppercase subcommand === codes "GET" then config_get pattern else pure config_usage
config (_ ∷ subcommand ∷ parameter ∷ value ∷ []) =
    if uppercase subcommand === codes "SET" then config_set parameter value else pure config_usage
config (_ ∷ _ ∷ _) = pure config_usage
config _ = raise undefined

abbrev pub usage_reply : Option KeyInfo → Bytes
usage_reply none = resp_null
usage_reply (some info) = resp_integer (signed info.memory)

abbrev memory_usage : Bytes
memory_usage =
    resp_error (codes "unknown subcommand or wrong number of arguments for 'memory' command")

unfoldable pub memory : Arguments → Command Bytes
unfolding uppercase signed
memory (_ ∷ subcommand ∷ key ∷ []) =
    if uppercase subcommand === codes "USAGE"
    then (do info ← call (inspect key); pure (usage_reply info))
    else pure memory_usage
memory (_ ∷ _ ∷ _) = pure memory_usage
memory _ = raise undefined
