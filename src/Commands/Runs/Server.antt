-- ===== src/Commands/Runs/Server.antt =====
-- src/commands.cpp: the commands on the server are defined and keep the log's property.
use flash_kv.Common.{ℕ, Option, none, some, List, [], ◌∷◌, Bytes, codes, ◌===◌}
use flash_kv.Database.State.{EvictionPolicy}
use flash_kv.Database.Names.{parse_eviction_policy}
use flash_kv.Database.Filled.Time.{
  read_clock-IsSafe, clear-IsSafe, set_max_memory-IsSafe, set_eviction_policy-IsSafe,
  inspect-IsSafe,
}
use flash_kv.Resp.Encode.{resp_simple_string, resp_array, resp_bulk_string}
use flash_kv.Commands.Text.{uppercase, lowercase, parse_memory_size}
use flash_kv.Commands.Processor.{Arguments}
use flash_kv.Commands.Server.{
  ping, echo, select, command_info, dbsize, flushall, info, config_get, set_limit, set_policy,
  config_set, config, memory, parameters, matching_parameters, info_sections, usage_reply,
  requested, join_sections,
}
use flash_kv.Commands.Runs.{
  Log, IsClosed, Runs, pure-Runs, gets-Runs, call-Runs, if-Runs, bind-Runs, map-Runs,
  propagate-Runs, evict-Runs,
}

module _ {R : Log → Type 0} where
  pub ping-Runs : (arguments : Arguments) → Runs R (ping arguments)
  unfolding ping
  ping-Runs [] = pure-Runs _
  ping-Runs (_ ∷ []) = pure-Runs _
  ping-Runs (_ ∷ message ∷ []) = pure-Runs _
  ping-Runs (_ ∷ message ∷ more ∷ rest) = pure-Runs _

  module _ (name argument : Bytes) (rest : List Bytes) where
    pub echo-Runs : Runs R (echo (name ∷ argument ∷ rest))
    unfolding echo
    echo-Runs = pure-Runs _

    pub select-Runs : Runs R (select (name ∷ argument ∷ rest))
    unfolding select
    select-Runs = if-Runs (argument === codes "0") (pure-Runs _) (pure-Runs _)

  pub memory-Runs :
      (name subcommand : Bytes) (rest : List Bytes) → Runs R (memory (name ∷ subcommand ∷ rest))
  unfolding memory
  memory-Runs name subcommand [] = pure-Runs _
  memory-Runs name subcommand (key ∷ []) =
      if-Runs (uppercase subcommand === codes "USAGE") (map-Runs usage_reply (inspect-IsSafe key))
        (pure-Runs _)
  memory-Runs name subcommand (key ∷ more ∷ rest) = pure-Runs _

  pub command_info-Runs : (arguments : Arguments) → Runs R (command_info arguments)
  unfolding command_info
  command_info-Runs arguments = pure-Runs _

  pub dbsize-Runs : (arguments : Arguments) → Runs R (dbsize arguments)
  unfolding dbsize
  dbsize-Runs arguments = gets-Runs _

  pub info-Runs : (arguments : Arguments) → Runs R (info arguments)
  unfolding info
  info-Runs arguments = bind-Runs (call-Runs read_clock-IsSafe) (λ current.
      bind-Runs (gets-Runs (info_sections current)) (λ sections.
        pure-Runs (resp_bulk_string (join_sections (requested arguments) sections []))))

module _ {R : Log → Type 0} (closed : IsClosed R) where
  pub flushall-Runs : (arguments : Arguments) → Runs R (flushall arguments)
  unfolding flushall
  flushall-Runs arguments = bind-Runs (call-Runs clear-IsSafe) (λ _.
      bind-Runs (propagate-Runs closed (codes "FLUSHALL" ∷ []))
        (λ _. pure-Runs (resp_simple_string (codes "OK"))))

  set_limit-Runs : (bytes : Option ℕ) → Runs R (set_limit bytes)
  unfolding set_limit
  set_limit-Runs none = pure-Runs _
  set_limit-Runs (some bytes) =
      bind-Runs (call-Runs (set_max_memory-IsSafe bytes))
        (λ _. bind-Runs (evict-Runs closed) (λ _. pure-Runs (resp_simple_string (codes "OK"))))

  set_policy-Runs : (policy : Option EvictionPolicy) → Runs R (set_policy policy)
  unfolding set_policy
  set_policy-Runs none = pure-Runs _
  set_policy-Runs (some policy) =
      bind-Runs (call-Runs (set_eviction_policy-IsSafe policy))
        (λ _. pure-Runs (resp_simple_string (codes "OK")))

  config_set-Runs : (parameter value : Bytes) → Runs R (config_set parameter value)
  unfolding config_set
  config_set-Runs parameter value =
      if-Runs (lowercase parameter === codes "maxmemory") (set_limit-Runs (parse_memory_size value))
        (if-Runs (lowercase parameter === codes "maxmemory-policy")
          (set_policy-Runs (parse_eviction_policy (lowercase value))) (pure-Runs _))

  config_get-Runs : (pattern : Bytes) → Runs R (config_get pattern)
  unfolding config_get
  config_get-Runs pattern =
      bind-Runs (gets-Runs parameters)
        (λ known. pure-Runs (resp_array (matching_parameters (lowercase pattern) known)))

  pub config-Runs :
      (name subcommand : Bytes) (rest : List Bytes) → Runs R (config (name ∷ subcommand ∷ rest))
  unfolding config
  config-Runs name subcommand [] = pure-Runs _
  config-Runs name subcommand (pattern ∷ []) =
      if-Runs (uppercase subcommand === codes "GET") (config_get-Runs pattern) (pure-Runs _)
  config-Runs name subcommand (parameter ∷ value ∷ []) =
      if-Runs (uppercase subcommand === codes "SET") (config_set-Runs parameter value) (pure-Runs _)
  config-Runs name subcommand (a ∷ b ∷ c ∷ rest) = pure-Runs _
