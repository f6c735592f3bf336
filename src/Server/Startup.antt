-- ===== src/Server/Startup.antt =====
-- src/tcp_server.cpp, `main`: the log is replayed before the server starts.
use flash_kv.Common.{
  ℕ, ◌-◌, Bool, true, Option, none, some, [], ◌∷◌, Bytes, if◌then◌else◌, ltb, ◌==◌, length, take,
}
use flash_kv.Common.Exec.{Outcome, ok, throw}
use flash_kv.Database.State.{Database}
use flash_kv.Database.Expiry.{set_max_memory, set_eviction_policy}
use flash_kv.Aof.Flush.{AppendOnlyFile, new_file}
use flash_kv.Aof.Load.{Loaded, whole_file, cut_at, load_error, exhausted, load}
use flash_kv.Commands.Processor.{CommandProcessor, CommandReply, Arguments, new_processor}
use flash_kv.Server.Options.{ServerConfig}
use flash_kv.Commands.Execute.{execute}

-- `substr(1, size - 3)`; below three bytes the difference wraps around, and all is taken.
abbrev message_of : Bytes → Bytes
message_of payload = if ltb (length payload) 2 then payload else take (length payload - 2) payload

-- The test of the callback: the reply of an error, without its first byte and its line end.
abbrev pub refusal : Bytes → Option Bytes
refusal [] = none
refusal (b ∷ payload) = if b == b'-' then some (message_of payload) else none

-- A call whose behaviour is undefined has no reply; it counts as refused.
abbrev pub replied : Outcome CommandReply × CommandProcessor → Option Bytes × CommandProcessor
replied (ok reply, p) = (refusal reply.payload, p)
replied (throw e, p) = (some [], p)

-- The callback that `main` gives to `load`.
unfoldable pub replay_command : Arguments → CommandProcessor → Option Bytes × CommandProcessor
unfolding execute
replay_command arguments p = replied (execute arguments p)

-- The file behind a load; no file is made an empty one.
abbrev pub file_contents : Loaded → Option Bytes → Option Bytes
file_contents whole_file none = some []
file_contents whole_file (some contents) = some contents
file_contents (cut_at position) none = some []
file_contents (cut_at position) (some contents) = some (take position contents)
file_contents (load_error message) contents = none
file_contents exhausted contents = none

abbrev pub opened_file : Bytes → AppendOnlyFile
opened_file contents = record (new_file contents) { is_open = true }

-- The settings come after the replay, so that loading never evicts.
unfoldable pub new_server : ServerConfig → Database → Option AppendOnlyFile → CommandProcessor
unfolding new_processor set_max_memory set_eviction_policy
new_server config db aof =
    let limited = set_eviction_policy config.policy (set_max_memory config.max_memory db) in
    let p = new_processor limited aof in
    record p { server_stats = record p.server_stats { port = config.port } }

abbrev pub after_load :
    ServerConfig → Bool → Option Bytes → Loaded × CommandProcessor → Option CommandProcessor
after_load config opens contents (loaded, p) = elim (file_contents loaded contents) [
  | none ↦ none
  | some bytes ↦
      if opens then some (new_server config p.database (some (opened_file bytes))) else none
]

-- The server that `main` starts, with the file, the answers of `truncate` and of `open`; `none` is the
-- return with status 1.
unfoldable pub start :
    (ℕ → Option Bytes) → Bool → Option Bytes → ServerConfig → Database → Option CommandProcessor
unfolding load replay_command new_server new_processor
start truncate opens contents config db =
    if config.append_only
    then after_load config opens contents
        (load replay_command truncate contents (new_processor db none))
    else some (new_server config db none)
