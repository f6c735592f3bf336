-- ===== src/Commands/Execute.antt =====
-- src/commands.cpp, `execute`.
use flash_kv.Common.{
  ℕ, suc, ◌+◌, Bool, true, false, not, ◌&&◌, ◌||◌, Option, none, some, List, [], ◌∷◌, ◌++◌, Bytes,
  codes, if◌then◌else◌, ltb, ◌==◌, ◌===◌, length, lookup,
}
use flash_kv.Common.Int.{ℤ, pos, negsuc}
use flash_kv.Common.Exec.{
  Outcome, ok, throw, Error, wrong_type, not_integer, overflow, undefined, pure, raise, run, ◌>>=◌,
  ◌>>◌,
}
use flash_kv.Aof.Flush.{AppendOnlyFile, healthy}
use flash_kv.Resp.Encode.{resp_simple_string, resp_error, resp_error_with_code}
use flash_kv.Commands.Text.{uppercase, lowercase}
use flash_kv.Commands.Processor.{Command, CommandProcessor, CommandReply, Arguments, gets, evict}
use flash_kv.Commands.Table.{CommandSpec, command_table}

abbrev pub reply : Bytes → CommandReply
reply payload = record { payload = payload; close_connection = false }

-- The test of the number of arguments.
unfoldable pub has_arity : ℤ → ℕ → Bool
has_arity (pos n) count = n == 0 || count == n
has_arity (negsuc n) count = not (ltb count (suc n))

-- `aof == nullptr || aof->healthy()`.
abbrev pub log_healthy : Option AppendOnlyFile → Bool
log_healthy none = true
log_healthy (some aof) = healthy aof

-- The `catch` clauses; undefined behaviour has none.
unfoldable pub caught : Error → Option Bytes
unfolding resp_error resp_error_with_code
caught wrong_type = some (
    resp_error_with_code (codes "WRONGTYPE")
      (codes "Operation against a key holding the wrong kind of value"))
caught not_integer = some (resp_error (codes "value is not an integer or out of range"))
caught overflow = some (resp_error (codes "increment or decrement would overflow"))
caught undefined = none

abbrev pub reply_or_raise : Option Bytes → Error → Command CommandReply
reply_or_raise none e = raise e
reply_or_raise (some payload) e = pure (reply payload)

abbrev pub finish : Outcome Bytes → Command CommandReply
finish (ok payload) = pure (reply payload)
finish (throw e) = reply_or_raise (caught e) e

-- The handler inside its `try`.
unfoldable pub attempt : Command Bytes → Command CommandReply
unfolding caught
attempt handler p = let (result, p') = handler p in finish result p'

unfoldable pub misconf : Bytes
unfolding resp_error_with_code
misconf =
    resp_error_with_code (codes "MISCONF")
      (codes "Errors writing to the AOF file. Write commands are disabled.")

unfoldable pub out_of_memory : Bytes
unfolding resp_error_with_code
out_of_memory =
    resp_error_with_code (codes "OOM") (codes "command not allowed when used memory > 'maxmemory'.")

-- What is done for a command that writes, before its handler.
unfoldable pub write_command : CommandSpec → Arguments → Command CommandReply
unfolding misconf out_of_memory attempt evict
write_command spec arguments = do
  writable ← gets (λ p. log_healthy p.aof)
  if not writable then pure (reply misconf) else do
    within_limit ← evict
    if not within_limit && spec.deny_oom
        then pure (reply out_of_memory)
        else attempt (spec.handler arguments)

unfoldable pub run_command : CommandSpec → Arguments → Command CommandReply
unfolding write_command attempt
run_command spec arguments =
    if spec.write then write_command spec arguments else attempt (spec.handler arguments)

-- Behind `table.find(name)`.
unfoldable pub dispatch : Option CommandSpec → Bytes → Bytes → List Bytes → Command CommandReply
unfolding has_arity run_command lowercase
dispatch none name first rest =
    pure (reply (resp_error (codes "unknown command '" ++ first ++ codes "'")))
dispatch (some spec) name first rest =
    if has_arity spec.arity (length (first ∷ rest))
    then run_command spec (first ∷ rest)
    else pure (
        reply (
          resp_error
            (codes "wrong number of arguments for '" ++ lowercase name ++ codes "' command")))

abbrev pub count_command : CommandProcessor → CommandProcessor
count_command p = record p {
  server_stats = record p.server_stats { total_commands = p.server_stats.total_commands + 1 };
}

abbrev pub quit_reply : CommandReply
quit_reply = record { payload = resp_simple_string (codes "OK"); close_connection = true }

unfoldable pub execute : Arguments → Command CommandReply
unfolding dispatch uppercase
execute [] = pure (reply (resp_error (codes "empty command")))
execute (first ∷ rest) = do
  run count_command
  if uppercase first === codes "QUIT"
      then pure quit_reply
      else dispatch (lookup (uppercase first) command_table) (uppercase first) first rest
