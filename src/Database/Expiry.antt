-- ===== src/Database/Expiry.antt =====
-- src/database.cpp, expiration and memory management of `Database`.
use Prim.Native.Nat.{min}
use flash_kv.Common.{
  ℕ, zero, suc, ◌+◌, ◌*◌, ◌/◌, Bool, true, false, not, ◌||◌, Option, none, some, List, [], ◌∷◌,
  ◌++◌, Bytes, if◌then◌else◌, length, leb, ltb, ◌==◌, get_elem?, is_empty, back?, lookup,
}
use flash_kv.Common.Int.{ℤ, pos, negsuc, ◌-ℤ◌, leb_ℤ, eqb_ℤ, checked_add, checked_mul, llong_max}
use flash_kv.Common.Exec.{ok, pure, run, ◌>>=◌, ◌>>◌}
use flash_kv.Database.State.{
  Db, Database, Entry, ValueType, Value, EvictionPolicy, no_eviction, all_keys_lru, value_type, now,
  no_expiry, find_live, erase, set_expiry, clear_expiry, count_expired, count_evicted,
}

-- `now()` as a step.
abbrev pub read_clock : Db ℤ
read_clock db = let (current, read) = now db in (ok current, read)

unfoldable pub expire_at_ms : Bytes → ℤ → Db Bool
unfolding now
expire_at_ms key unix_time_ms = do
  node ← find_live key
  elim node [
    | none ↦ pure false
    | some _ ↦ do
      current ← read_clock
      if leb_ℤ unix_time_ms current then run (erase key) else run (set_expiry key unix_time_ms)
      pure true
  ]

-- The deadline of `expire`: `none` is an overflow of the product or of the sum.
abbrev pub saturated : Option ℤ → ℤ
saturated none = llong_max
saturated (some t) = t

-- The clock is read for the sum only if the product does not overflow.
unfoldable pub deadline_after : ℤ → Db ℤ
unfolding now checked_add checked_mul
deadline_after seconds = elim (checked_mul seconds (pos 1000)) [
  | none ↦ pure llong_max
  | some ms ↦ do current ← read_clock; pure (saturated (checked_add current ms))
]

unfoldable pub expire : Bytes → ℤ → Db Bool
unfolding now expire_at_ms deadline_after
expire key seconds =
    if leb_ℤ seconds (pos 0)
    then (do current ← read_clock; expire_at_ms key current)
    else (do deadline ← deadline_after seconds; expire_at_ms key deadline)

unfoldable pub persist : Bytes → Db Bool
persist key = do
  node ← find_live key
  elim node [
    | none ↦ pure false
    | some e ↦
        if eqb_ℤ e.expires_at_ms no_expiry then pure false else run (clear_expiry key) >> pure true
  ]

-- The difference is not bounded; it leaves `long long` only where the clock is negative.
unfoldable pub ttl_ms : Bytes → Db ℤ
unfolding now
ttl_ms key = do
  node ← find_live key
  elim node [
    | none ↦ pure (negsuc 1)
    | some e ↦
        if eqb_ℤ e.expires_at_ms no_expiry
        then pure (negsuc 0)
        else (do current ← read_clock; pure (e.expires_at_ms -ℤ current))
  ]

-- (remaining + 500) / 1000, where `remaining` is not negative.
-- The sum is not bounded; it leaves `long long` only above its greatest value less 500.
unfoldable pub round_seconds : ℤ → ℤ
round_seconds (negsuc n) = negsuc n
round_seconds (pos n) = pos ((n + 500) / 1000)

unfoldable pub ttl : Bytes → Db ℤ
unfolding ttl_ms round_seconds
ttl key = do remaining ← ttl_ms key; pure (round_seconds remaining)

-- `Node* node = volatileKeys[pick(random)]`.
unfoldable pub pick : Database → Option Bytes × Database
pick db = (
  get_elem? db.volatile_keys (db.draw db.draws (length db.volatile_keys)),
  record db { draws = db.draws + 1 },
)

abbrev pub deadline_in : Option Entry → ℤ
deadline_in none = no_expiry
deadline_in (some e) = e.expires_at_ms

-- `node->second.expiresAtMs`.
abbrev pub deadline_of : Bytes → Database → ℤ
deadline_of key db = deadline_in (lookup key db.entries)

-- One sample: the state behind it, and whether the key had expired. `none` is a draw out of range.
unfoldable pub sample : ℤ → Option Bytes × Database → Database × ℕ
sample current (none, db) = (db, 0)
sample current (some key, db) =
    if leb_ℤ (deadline_of key db) current then (erase key db, 1) else (db, 0)

-- The inner loop; the numbers are `sampled` and `expired`.
unfoldable pub sample_loop : ℕ → ℤ → Database → ℕ → ℕ → Database × ℕ × ℕ
unfolding pick sample
sample_loop zero current db sampled expired = (db, sampled, expired)
sample_loop (suc samples) current db sampled expired =
    let step = sample current (pick db) in
    let rest = sample_loop samples current step.0 (sampled + 1) (expired + step.1) in
    if is_empty db.volatile_keys then (db, sampled, expired) else rest

-- The outer loop. `late i` says whether the time budget is used up behind round i; each further
-- round has removed a key, so the number of keys with a deadline is enough fuel.
unfoldable pub cycle_loop : ℕ → ℕ → ℤ → (ℕ → Bool) → ℕ → Database → ℕ → ℕ × Database
unfolding sample_loop
cycle_loop zero per_loop current late round db removed = (removed, db)
cycle_loop (suc fuel) per_loop current late round db removed =
    let samples = min per_loop (length db.volatile_keys) in
    let (db', sampled, expired) = sample_loop samples current db 0 0 in
    let counted = count_expired expired db' in
    let rest = cycle_loop fuel per_loop current late (round + 1) counted (removed + expired) in
    if is_empty db.volatile_keys
    then (removed, db)
    else if leb (expired * 4) sampled || late round
    then (removed + expired, counted)
    else rest

unfoldable pub active_expire_cycle : ℕ → (ℕ → Bool) → Db ℕ
unfolding now cycle_loop
active_expire_cycle per_loop late db =
    let (current, read) = now db in
    let (removed, db') = cycle_loop (length db.volatile_keys + 1) per_loop current late 0 read 0 in
    (ok removed, db')

unfoldable pub set_max_memory : ℕ → Database → Database
set_max_memory bytes db = record db { memory_limit = bytes }

unfoldable pub set_eviction_policy : EvictionPolicy → Database → Database
set_eviction_policy policy db = record db { policy = policy }

abbrev pub allows_eviction : EvictionPolicy → Bool
allows_eviction no_eviction = false
allows_eviction all_keys_lru = true

abbrev pub victim_of : Database → Option Bytes
victim_of db = if allows_eviction db.policy then back? db.lru else none

-- The loop of `evictIfNeeded`. Each round takes a key off `lru`, so its length is enough fuel.
unfoldable pub evict_loop : ℕ → Database → List Bytes → Bool × List Bytes × Database
evict_loop zero db evicted = (not (ltb db.memory_limit db.memory_used), evicted, db)
evict_loop (suc fuel) db evicted =
    let next = λ (victim : Bytes).
      evict_loop fuel (count_evicted (erase victim db)) (evicted ++ victim ∷ []) in
    if ltb db.memory_limit db.memory_used
    then elim (victim_of db) [ none ↦ (false, evicted, db) | some victim ↦ next victim ]
    else (true, evicted, db)

unfoldable pub evict_if_needed : Database → Bool × List Bytes × Database
unfolding evict_loop
evict_if_needed db =
    if db.memory_limit == 0 then (true, [], db) else evict_loop (length db.lru) db []

pub record KeyInfo : Type 0 where
  pub type_of : ValueType
  pub ttl_ms : ℤ
  pub memory : ℕ
  pub value : Value

unfoldable pub key_info : Entry → ℤ → KeyInfo
unfolding value_type
key_info e remaining = record {
  type_of = value_type e.value;
  ttl_ms = remaining;
  memory = e.memory;
  value = e.value;
}

-- No state changes but the count of clock readings.
-- The difference is not bounded, as in `ttl_ms`.
unfoldable pub inspect : Bytes → Db (Option KeyInfo)
unfolding now key_info
inspect key db = elim (lookup key db.entries) [
  | none ↦ (ok none, db)
  | some e ↦
      let (current, read) = now db in
      let remaining = e.expires_at_ms -ℤ current in
      if eqb_ℤ e.expires_at_ms no_expiry
      then (ok (some (key_info e (negsuc 0))), db)
      else if leb_ℤ remaining (pos 0)
      then (ok none, read)
      else (ok (some (key_info e remaining)), read)
]
