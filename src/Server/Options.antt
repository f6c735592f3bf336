-- ===== src/Server/Options.antt =====
-- src/tcp_server.cpp, `ServerConfig` and `parseArguments`.
use flash_kv.Common.{
  ℕ, Bool, true, ◌&&◌, ◌||◌, Option, none, some, List, [], ◌∷◌, Bytes, codes, if◌then◌else◌, leb,
  ◌===◌,
}
use flash_kv.Common.Int.{ℤ, pos, negsuc}
use flash_kv.Database.State.{EvictionPolicy, no_eviction}
use flash_kv.Database.Names.{parse_eviction_policy}
use flash_kv.Commands.Text.{parse_memory_size}
use flash_kv.Format.Reply.{stoll}

pub record ServerConfig : Type 0 where
  pub bind_address : Bytes
  pub port : ℕ
  pub append_only : Bool
  pub aof_path : Bytes
  pub max_memory : ℕ
  pub policy : EvictionPolicy
  pub hz : ℕ

unfoldable pub default_config : ServerConfig
default_config = record {
  bind_address = codes "127.0.0.1";
  port = 6379;
  append_only = true;
  aof_path = codes "flashkv.aof";
  max_memory = 0;
  policy = no_eviction;
  hz = 10;
}

-- The number of std::stoi in a range of positive numbers; what does not fit an int is outside too.
unfoldable pub in_range : ℕ → ℕ → Option ℤ → Option ℕ
in_range low high none = none
in_range low high (some (negsuc n)) = none
in_range low high (some (pos n)) = if leb low n && leb n high then some n else none

abbrev pub with_port : ServerConfig → Option ℕ → Option ServerConfig
with_port config none = none
with_port config (some port) = some (record config { port = port })

abbrev pub with_hz : ServerConfig → Option ℕ → Option ServerConfig
with_hz config none = none
with_hz config (some hz) = some (record config { hz = hz })

abbrev pub with_max_memory : ServerConfig → Option ℕ → Option ServerConfig
with_max_memory config none = none
with_max_memory config (some bytes) = some (record config { max_memory = bytes })

abbrev pub with_policy : ServerConfig → Option EvictionPolicy → Option ServerConfig
with_policy config none = none
with_policy config (some policy) = some (record config { policy = policy })

-- One option with its value; `none` is an exception or an unknown option.
unfoldable pub set_option : Bytes → Bytes → ServerConfig → Option ServerConfig
unfolding in_range stoll parse_memory_size parse_eviction_policy ◌===◌
set_option option value config =
    if option === codes "--bind"
    then some (record config { bind_address = value })
    else if option === codes "--port"
    then with_port config (in_range 1 65535 (stoll value))
    else if option === codes "--appendonly"
    then (if value === codes "yes" || value === codes "no"
        then some (record config { append_only = value === codes "yes" })
        else none)
    else if option === codes "--aof"
    then some (record config { aof_path = value })
    else if option === codes "--maxmemory"
    then with_max_memory config (parse_memory_size value)
    else if option === codes "--maxmemory-policy"
    then with_policy config (parse_eviction_policy value)
    else if option === codes "--hz"
    then with_hz config (in_range 1 500 (stoll value))
    else none

-- `exits` is the exit with status 0 behind the usage text.
pub data Parsed : Type 0 where
  parsed : ServerConfig → Parsed
  exits refused : Parsed

abbrev pub is_help : Bytes → Bool
is_help option = option === codes "--help" || option === codes "-h"

abbrev pub after_option : Option ServerConfig → (ServerConfig → Parsed) → Parsed
after_option none next = refused
after_option (some config) next = next config

-- The arguments behind the name of the program.
unfoldable pub parse_arguments : List Bytes → ServerConfig → Parsed
unfolding set_option ◌===◌
parse_arguments [] config = parsed config
parse_arguments (option ∷ []) config = if is_help option then exits else refused
parse_arguments (option ∷ value ∷ rest) config =
    let next = parse_arguments rest in
    if is_help option then exits else after_option (set_option option value config) next
