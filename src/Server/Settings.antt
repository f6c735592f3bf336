-- ===== src/Server/Settings.antt =====
-- src/tcp_server.cpp, `parseArguments`: the settings that it accepts.
use flash_kv.Common.{
  ℕ, ◌≤◌, ◌<◌, ◌≡◌, arith, Bool, true, false, ◌&&◌, ◌||◌, Option, none, some, List, [], ◌∷◌, Bytes,
  codes, if◌then◌else◌, ltb, leb, ◌===◌, ◌*◌, word, Bool-cases, inl, inr, subst,
}
use flash_kv.Common.Int.{ℤ, pos, negsuc}
use flash_kv.Database.Names.{parse_eviction_policy}
use flash_kv.Database.State.{EvictionPolicy}
use flash_kv.Commands.Text.{leading_number, multiplier, scaled, lowercase, parse_memory_size}
use flash_kv.Format.Reply.{stoll}
use flash_kv.Server.Options.{
  ServerConfig, default_config, in_range, with_port, with_hz, with_max_memory, with_policy,
  set_option, Parsed, parsed, exits, refused, is_help, after_option, parse_arguments,
}

abbrev IsValid : ServerConfig → Type 0
IsValid config =
    (1 ≤ config.port)
    × (config.port ≤ 65535)
    × (1 ≤ config.hz)
    × (config.hz ≤ 500)
    × (config.max_memory < word)

abbrev IsValidOption : Option ServerConfig → Type 0
IsValidOption none = Unit {0}
IsValidOption (some config) = IsValid config

abbrev IsValidParsed : Parsed → Type 0
IsValidParsed (parsed config) = IsValid config
IsValidParsed exits = Unit {0}
IsValidParsed refused = Unit {0}

-- A number of the range, or none.
abbrev IsIn : ℕ → ℕ → Option ℕ → Type 0
IsIn low high none = Unit {0}
IsIn low high (some n) = (low ≤ n) × (n ≤ high)

in_range-IsIn : (low high : ℕ) (o : Option ℤ) → IsIn low high (in_range low high o)
unfolding in_range
in_range-IsIn low high none = tt
in_range-IsIn low high (some (negsuc n)) = tt
in_range-IsIn low high (some (pos n)) = elim (Bool-cases (leb low n && leb n high)) [
  | inl inside ↦ rw inside (ground arith, ground arith)
  | inr outside ↦ rw outside tt
]

abbrev IsWord : Option ℕ → Type 0
IsWord none = Unit {0}
IsWord (some n) = n < word

scaled-IsWord : (amount : ℕ) (factor : Option ℕ) → IsWord (scaled amount factor)
unfolding scaled
scaled-IsWord amount none = tt
scaled-IsWord amount (some factor) = elim (Bool-cases (ltb (amount * factor) word)) [
  | inl fits ↦ rw fits (ground arith)
  | inr over ↦ rw over tt
]

parse_memory_size-IsWord : (text : Bytes) → IsWord (parse_memory_size text)
unfolding parse_memory_size
parse_memory_size-IsWord text = go (leading_number text)
  where
    go :
        (o : Option (ℕ × Bytes))
        → IsWord (elim o [
          | none ↦ none
          | some (amount, unit) ↦ scaled amount (multiplier (lowercase unit))
        ])
    go none = tt
    go (some (amount, unit)) = scaled-IsWord amount (multiplier (lowercase unit))

module _ (config : ServerConfig) (valid : IsValid config) where
  with_port-IsValid : (o : Option ℕ) → IsIn 1 65535 o → IsValidOption (with_port config o)
  with_port-IsValid none h = tt
  with_port-IsValid (some n) (low, high) = let (a, b, c, d, e) = valid in (low, high, c, d, e)

  with_hz-IsValid : (o : Option ℕ) → IsIn 1 500 o → IsValidOption (with_hz config o)
  with_hz-IsValid none h = tt
  with_hz-IsValid (some n) (low, high) = let (a, b, c, d, e) = valid in (a, b, low, high, e)

  with_max_memory-IsValid : (o : Option ℕ) → IsWord o → IsValidOption (with_max_memory config o)
  with_max_memory-IsValid none h = tt
  with_max_memory-IsValid (some n) h = let (a, b, c, d, e) = valid in (a, b, c, d, h)

  with_policy-IsValid : (o : Option EvictionPolicy) → IsValidOption (with_policy config o)
  with_policy-IsValid none = tt
  with_policy-IsValid (some policy) = valid

  chosen :
      (b : Bool) (x y : Option ServerConfig)
      → IsValidOption x
      → IsValidOption y
      → IsValidOption (if b then x else y)
  chosen true x y hx hy = hx
  chosen false x y hx hy = hy

  set_option-IsValid : (option value : Bytes) → IsValidOption (set_option option value config)
  unfolding set_option
  set_option-IsValid option value =
      chosen (option === codes "--bind") (some (record config { bind_address = value })) _ valid (
        chosen (option === codes "--port") _ _
          (with_port-IsValid _ (in_range-IsIn 1 65535 (stoll value)))
          (chosen (option === codes "--appendonly") _ _
            (chosen (value === codes "yes" || value === codes "no")
              (some (record config { append_only = value === codes "yes" })) none valid tt)
            (chosen (option === codes "--aof") (some (record config { aof_path = value })) _ valid (
              chosen (option === codes "--maxmemory") _ _
                (with_max_memory-IsValid _ (parse_memory_size-IsWord value))
                (chosen (option === codes "--maxmemory-policy") _ _
                  (with_policy-IsValid (parse_eviction_policy value))
                  (chosen (option === codes "--hz") _ none
                    (with_hz-IsValid _ (in_range-IsIn 1 500 (stoll value))) tt))))))

after_option-IsValid :
    (o : Option ServerConfig) (next : ServerConfig → Parsed)
    → IsValidOption o
    → ((config : ServerConfig) → IsValid config → IsValidParsed (next config))
    → IsValidParsed (after_option o next)
after_option-IsValid none next h k = tt
after_option-IsValid (some config) next h k = k config h

parse_arguments-IsValid :
    (arguments : List Bytes) (config : ServerConfig)
    → IsValid config
    → IsValidParsed (parse_arguments arguments config)
unfolding parse_arguments
parse_arguments-IsValid [] config valid = valid
parse_arguments-IsValid (option ∷ []) config valid = elim (Bool-cases (is_help option)) [
  | inl help ↦ rw help tt
  | inr other ↦ rw other tt
]
parse_arguments-IsValid (option ∷ value ∷ rest) config valid = elim (Bool-cases (is_help option)) [
  | inl help ↦ rw help tt
  | inr other ↦ rw other (
      after_option-IsValid (set_option option value config) (parse_arguments rest)
        (set_option-IsValid config valid option value) (parse_arguments-IsValid rest))
]

-- The settings that `parseArguments` accepts, starting from the defaults, have a port from 1 to
-- 65535, a frequency from 1 to 500 and a memory limit below 2^64.
pub parse_arguments_bounds :
    (arguments : List Bytes) (config : ServerConfig)
    → parse_arguments arguments default_config ≡ parsed config
    → (1 ≤ config.port)
      × (config.port ≤ 65535)
      × (1 ≤ config.hz)
      × (config.hz ≤ 500)
      × (config.max_memory < word)
parse_arguments_bounds arguments config e = subst IsValidParsed e (
    parse_arguments-IsValid arguments default_config
      (unfold default_config in (omega arith, omega arith, omega arith, omega arith, omega arith)))
