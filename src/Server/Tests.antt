-- ===== src/Server/Tests.antt =====
-- The theorems on the server at small inputs.
use flash_kv.Common.{
  ℕ, ◌≤◌, ◌<◌, word, ◌≡◌, ◌⊎◌, refl, true, false, Option, none, some, List, [], ◌∷◌, ◌++◌, arith,
  Bytes, codes, length,
}
use flash_kv.Common.Int.{pos}
use flash_kv.Common.Exec.{Outcome, ok}
use flash_kv.Database.State.{empty_database}
use flash_kv.Database.Filled.{IsSound}
use flash_kv.Resp.Parse.{incomplete, parse_resp_command}
use flash_kv.Aof.Flush.{AppendOnlyFile, wrote}
use flash_kv.Aof.Replay.{AreLoggable, encoded}
use flash_kv.Commands.Processor.{CommandProcessor, Arguments, new_processor}
use flash_kv.Commands.Answers.{empty_database-IsSound, new_processor-IsSound}
use flash_kv.Server.Client.{
  Client, new_client, sent, send_interrupted, chunk, receive_would_block, unsent, process_input,
  write_to_client,
}
use flash_kv.Server.Events.{
  Connection, PollEvents, Answers, ServerState, Progress, done, client_events, accept_client,
  handle_client_events,
}
use flash_kv.Server.Options.{ServerConfig, default_config, parsed, parse_arguments}
use flash_kv.Server.Settings.{parse_arguments_bounds}
use flash_kv.Server.Startup.{opened_file, new_server}
use flash_kv.Server.Delivery.{write_to_client-unsent}
use flash_kv.Server.Input.{process_input-IsProcessed}
use flash_kv.Server.Pipeline.{answer_all, process_input-answer_all}
use flash_kv.Server.Order.{IsOrdered, client_events_order}
use flash_kv.Server.Returns.{ended}
use flash_kv.Server.Reach.{after}

abbrev replying : Client
replying = record new_client { output = codes "+OK"; output_offset = 1 }

write_to_client-unsent_example :
    ((write_to_client (send_interrupted ∷ sent 1 ∷ []) replying (codes "+")).2
        ++ unsent (write_to_client (send_interrupted ∷ sent 1 ∷ []) replying (codes "+")).1
      ≡ codes "+" ++ unsent replying)
    × ((write_to_client (send_interrupted ∷ sent 1 ∷ []) replying (codes "+")).1.output_offset
        ≤ length (write_to_client (send_interrupted ∷ sent 1 ∷ []) replying (codes "+")).1.output)
write_to_client-unsent_example =
    write_to_client-unsent (send_interrupted ∷ sent 1 ∷ []) replying (codes "+") (omega arith)

abbrev file : AppendOnlyFile
file = record {
  buffer = codes "*1";
  is_open = true;
  needs_sync = false;
  write_failed = false;
  contents = [];
}

abbrev fresh : CommandProcessor
fresh = new_processor (empty_database (λ n. pos 1000) (λ n m. 0)) (some file)

fresh-IsSound : IsSound fresh.database
fresh-IsSound = new_processor-IsSound _ (some file) (empty_database-IsSound _ _)

abbrev commands : List Arguments
commands =
    (codes "SET" ∷ codes "k" ∷ codes "v" ∷ []) ∷ (codes "QUIT" ∷ []) ∷ (codes "PING" ∷ []) ∷ []

loggable : AreLoggable commands
loggable = (
  (omega arith, (omega arith, (omega arith, (omega arith, tt)))),
  ((omega arith, (omega arith, tt)), ((omega arith, (omega arith, tt)), tt)),
)

abbrev sending : Client
sending = record new_client { input = encoded commands ++ codes "*1" }

part : (parse_resp_command (codes "*1")).status ≡ incomplete
part = unfold parse_resp_command in refl

process_input-answer_all_example :
    process_input sending fresh ≡ answer_all commands (codes "*1") sending fresh
process_input-answer_all_example =
    process_input-answer_all commands (codes "*1") sending fresh loggable part refl

process_input-IsProcessed_example :
    (after : Client) × (replies : Bytes) × ((process_input sending fresh).0 ≡ ok (some after))
    × IsSound (process_input sending fresh).1.database
    × ((after.close_after_write ≡ true) ⊎ ((parse_resp_command after.input).status ≡ incomplete))
    × (after.output ≡ sending.output ++ replies)
    × (after.output_offset ≡ sending.output_offset)
process_input-IsProcessed_example = process_input-IsProcessed sending fresh fresh-IsSound

-- A reply waits, and the log has bytes that are not in the file.
abbrev owing : Connection
owing = record { client = replying; wire = codes "+"; logs = [] }

abbrev writable : PollEvents
writable = record { failed = false; readable = false }

abbrev answers : Answers
answers = record {
  received = λ n. receive_would_block;
  written = wrote 2 ∷ [];
  taken = sent 2 ∷ [];
}

abbrev logged : AppendOnlyFile
logged = record file { buffer = []; needs_sync = true; contents = codes "*1" }

abbrev replied : Connection
replied = record { client = new_client; wire = codes "+OK"; logs = some logged ∷ [] }

handled : (client_events writable answers owing fresh).0 ≡ ok (done (true, replied))
unfolding client_events new_processor
handled = refl

client_events_order_example : IsOrdered owing replied
client_events_order_example = client_events_order writable answers owing fresh true replied handled

abbrev settings : ServerConfig
settings = default_config

abbrev started_server : CommandProcessor
started_server =
    new_server settings (new_processor (empty_database (λ n. pos 1000) (λ n m. 0)) none).database
      (some (opened_file []))

abbrev running : ServerState
running = record { processor = started_server; clients = [] }

-- A client has come, and sends a command.
abbrev serving : ServerState
serving = accept_client 7 running

abbrev pinged : Answers
pinged = record { received = λ n. chunk b'P' (codes "ING\r\n"); written = []; taken = sent 3 ∷ [] }

abbrev arriving : PollEvents
arriving = record { failed = false; readable = true }

-- The command is answered, and three bytes of the reply leave before `send` would block.
abbrev first_wire : List (ℕ × Connection) → Bytes
first_wire [] = []
first_wire ((socket, connection) ∷ clients) = connection.wire

abbrev wire_of : Outcome (Progress ServerState) → Bytes
wire_of (ok (done s)) = first_wire s.clients
wire_of _ = []

answers_ping : wire_of (handle_client_events 7 arriving (ended pinged) serving) ≡ codes "+PO"
unfolding handle_client_events accept_client flash_kv.Resp.Tokenize.tokenize_command_line
    flash_kv.Common.◌===◌ flash_kv.Common.lookup flash_kv.Commands.Table.command_table
    flash_kv.Commands.Server.ping flash_kv.Resp.Encode.resp_simple_string new_server
answers_ping = refl

abbrev on_port : ServerConfig
on_port = record default_config { port = 7000; hz = 1 }

abbrev given : List Bytes
given = codes "--port" ∷ codes "7000" ∷ codes "--hz" ∷ codes "1" ∷ []

parses : parse_arguments given default_config ≡ parsed on_port
unfolding parse_arguments default_config
parses = refl

parse_arguments_bounds_example :
    (1 ≤ on_port.port)
    × (on_port.port ≤ 65535)
    × (1 ≤ on_port.hz)
    × (on_port.hz ≤ 500)
    × (on_port.max_memory < word)
parse_arguments_bounds_example = parse_arguments_bounds given on_port parses
