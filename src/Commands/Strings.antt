-- ===== src/Commands/Strings.antt =====
-- src/commands.cpp, commands on strings.
use flash_kv.Common.{
  ◌%◌, Bool, true, false, not, ◌&&◌, ◌||◌, Option, none, some, List, [], ◌∷◌, ◌++◌, Bytes, codes,
  if◌then◌else◌, ◌==◌, ◌===◌, is_some, length,
}
use flash_kv.Common.Int.{ℤ, pos, negsuc, ◌-ℤ◌, leb_ℤ, eqb_ℤ, checked_add, checked_mul, llong_min}
use flash_kv.Common.Exec.{ok, throw, wrong_type, pure, raise, undefined, ◌>>=◌, ◌>>◌}
use flash_kv.Database.Strings.{
  exists as db_exists, set as db_set, get as db_get, increment_by, append as db_append,
  string_length,
}
use flash_kv.Database.Expiry.{read_clock, expire_at_ms}
use flash_kv.Resp.Encode.{
  resp_simple_string, resp_error, resp_integer, resp_null, resp_encoded_array,
}
use flash_kv.Commands.Text.{uppercase, parse_integer}
use flash_kv.Commands.Processor.{
  Command, Arguments, call, propagate, propagate_expiry, signed, not_an_integer, syntax_error,
  nullable_bulk,
}

-- What the loop over the options of SET ends with: a reply, or the three variables.
pub data Options : Type 0 where
  refused : Bytes → Options
  accepted : Bool → Bool → Option ℤ → Options

-- The deadline of an option EX or PX; `none` is refused. The clock is read last.
unfoldable pub option_deadline : ℤ → ℤ → Command (Option ℤ)
unfolding checked_mul checked_add
option_deadline amount unit_ms =
    if leb_ℤ amount (pos 0) then pure none else elim (checked_mul amount unit_ms) [
      | none ↦ pure none
      | some ms ↦ do current ← call read_clock; pure (checked_add ms current)
    ]

-- The loop from one option on: it goes on behind the option, or behind its amount.
unfoldable pub set_options : List Bytes → Bool → Bool → Option ℤ → Command Options
unfolding uppercase parse_integer option_deadline
set_options [] nx xx time = pure (accepted nx xx time)
set_options (o ∷ []) nx xx time =
    let option = uppercase o in
    if option === codes "NX"
    then pure (accepted true xx time)
    else if option === codes "XX"
    then pure (accepted nx true time)
    else pure (refused syntax_error)
set_options (o ∷ a ∷ rest) nx xx time =
    let option = uppercase o in
    let unit_ms = if option === codes "EX" then pos 1000 else pos 1 in
    let after_nx = set_options (a ∷ rest) true xx time in
    let after_xx = set_options (a ∷ rest) nx true time in
    let after_time = λ (when : ℤ). set_options rest nx xx (some when) in
    if option === codes "NX"
    then after_nx
    else if option === codes "XX"
    then after_xx
    else if (option === codes "EX" || option === codes "PX") && not (is_some time)
    then elim (parse_integer a) [
      | none ↦ pure (refused not_an_integer)
      | some amount ↦ do
        when ← option_deadline amount unit_ms
        elim when [
          | none ↦ pure (refused (resp_error (codes "invalid expire time in 'set' command")))
          | some ms ↦ after_time ms
        ]
    ]
    else pure (refused syntax_error)

unfoldable pub set_deadline : Bytes → Option ℤ → Command (Unit {0})
unfolding propagate_expiry
set_deadline key none = pure tt
set_deadline key (some time) = do _ ← call (expire_at_ms key time); propagate_expiry key time

unfoldable pub store : Bytes → Bytes → Option ℤ → Command Bytes
unfolding set_deadline propagate
store key value time = do
  call (db_set key value)
  propagate (codes "SET" ∷ key ∷ value ∷ [])
  set_deadline key time
  pure (resp_simple_string (codes "OK"))

-- SET behind its options.
unfoldable pub set_with : Bytes → Bytes → Options → Command Bytes
unfolding store
set_with key value (refused reply) = pure reply
set_with key value (accepted nx xx time) = if nx && xx then pure syntax_error else do
  present ← call (db_exists key)
  if nx && present || xx && not present then pure resp_null else store key value time

unfoldable pub set : Arguments → Command Bytes
unfolding set_options set_with
set (_ ∷ key ∷ value ∷ options) = do
  parsed ← set_options options false false none
  set_with key value parsed
set _ = raise undefined

unfoldable pub get : Arguments → Command Bytes
get (_ ∷ key ∷ _) = do value ← call (db_get key); pure (nullable_bulk value)
get _ = raise undefined

-- The loop of `mset`, over an even number of arguments.
unfoldable pub mset_loop : List Bytes → Command (Unit {0})
unfolding db_set
mset_loop [] = pure tt
mset_loop (key ∷ []) = raise undefined
mset_loop (key ∷ value ∷ rest) = do call (db_set key value); mset_loop rest

unfoldable pub mset : Arguments → Command Bytes
unfolding mset_loop propagate
mset [] = raise undefined
mset (name ∷ pairs) =
    if length (name ∷ pairs) % 2 == 0
    then pure (resp_error (codes "wrong number of arguments for 'mset' command"))
    else do mset_loop pairs; propagate (name ∷ pairs); pure (resp_simple_string (codes "OK"))

-- `get` inside the `try` of `mget`.
unfoldable pub value_or_null : Bytes → Command Bytes
value_or_null key p =
    let (result, p') = call (db_get key) p in
    elim result [
      | ok value ↦ (ok (nullable_bulk value), p')
      | throw e ↦ elim e [ wrong_type ↦ (ok resp_null, p') | other ↦ (throw other, p') ]
    ]

unfoldable pub mget_loop : List Bytes → List Bytes → Command (List Bytes)
unfolding value_or_null
mget_loop [] values = pure values
mget_loop (key ∷ keys) values = do value ← value_or_null key; mget_loop keys (values ++ value ∷ [])

unfoldable pub mget : Arguments → Command Bytes
unfolding mget_loop
mget [] = raise undefined
mget (_ ∷ keys) = do values ← mget_loop keys []; pure (resp_encoded_array values)

-- `incrementBy`, the log and the reply.
unfoldable pub increment : Arguments → Bytes → ℤ → Command Bytes
unfolding propagate
increment arguments key delta = do
  result ← call (increment_by key delta)
  propagate arguments
  pure (resp_integer result)

unfoldable pub incr : Arguments → Command Bytes
unfolding increment
incr (name ∷ key ∷ rest) = increment (name ∷ key ∷ rest) key (pos 1)
incr _ = raise undefined

unfoldable pub decr : Arguments → Command Bytes
unfolding increment
decr (name ∷ key ∷ rest) = increment (name ∷ key ∷ rest) key (negsuc 0)
decr _ = raise undefined

unfoldable pub incrby : Arguments → Command Bytes
unfolding increment parse_integer
incrby (name ∷ key ∷ amount ∷ rest) = elim (parse_integer amount) [
  | none ↦ pure not_an_integer
  | some delta ↦ increment (name ∷ key ∷ amount ∷ rest) key delta
]
incrby _ = raise undefined

unfoldable pub decrby : Arguments → Command Bytes
unfolding increment parse_integer ◌-ℤ◌
decrby (name ∷ key ∷ amount ∷ rest) = elim (parse_integer amount) [
  | none ↦ pure not_an_integer
  | some delta ↦
      if eqb_ℤ delta llong_min
      then pure (resp_error (codes "decrement would overflow"))
      else increment (name ∷ key ∷ amount ∷ rest) key (pos 0 -ℤ delta)
]
decrby _ = raise undefined

unfoldable pub append : Arguments → Command Bytes
unfolding propagate signed
append (name ∷ key ∷ value ∷ rest) = do
  size ← call (db_append key value)
  propagate (name ∷ key ∷ value ∷ rest)
  pure (resp_integer (signed size))
append _ = raise undefined

unfoldable pub strlen : Arguments → Command Bytes
unfolding signed
strlen (_ ∷ key ∷ _) = do size ← call (string_length key); pure (resp_integer (signed size))
strlen _ = raise undefined
