-- ===== src/Server/Client.antt =====
-- src/tcp_server.cpp: `Client`, `processInput`, `writeToClient` and `readFromClient`.
use flash_kv.Common.{
  ℕ, zero, suc, ◌+◌, ◌-◌, ◌/◌, Bool, true, false, Option, none, some, List, [], ◌∷◌, ◌++◌, Bytes,
  if◌then◌else◌, ltb, ◌==◌, length, take, drop,
}
use flash_kv.Common.Exec.{pure, ◌>>=◌}
use flash_kv.Resp.Encode.{resp_error}
use flash_kv.Resp.Parse.{RespParseResult, complete, incomplete, error_status, parse_resp_command}
use flash_kv.Commands.Processor.{Command, CommandReply}
use flash_kv.Commands.Execute.{execute}

pub record Client : Type 0 where
  pub input : Bytes
  pub output : Bytes
  pub output_offset : ℕ
  pub close_after_write : Bool

-- READ_CHUNK_SIZE, MAX_READS_PER_EVENT, MAX_QUERY_BUFFER.
abbrev pub read_chunk_size : ℕ
read_chunk_size = 16384

abbrev pub max_reads_per_event : ℕ
max_reads_per_event = 16

abbrev pub max_query_buffer : ℕ
max_query_buffer = 1073741824

abbrev pub new_client : Client
new_client = record { input = []; output = []; output_offset = 0; close_after_write = false }

abbrev pub pending_output : Client → ℕ
pending_output client = length client.output - client.output_offset

-- A protocol error: the reply, and the end of the connection.
abbrev pub refuse : RespParseResult → Client → Client
refuse result client = record client {
  output = client.output ++ resp_error result.error;
  close_after_write = true;
}

abbrev pub answer : CommandReply → Client → Client
answer reply client = record client {
  output = client.output ++ reply.payload;
  close_after_write = if reply.close_connection then true else client.close_after_write;
}

-- The loop of `processInput` behind the parser; `pending` is the input from `consumed` on, and what
-- is left of it becomes the input. `again` is the next round.
abbrev pub complete_round :
    List Bytes
    → Bytes
    → Client
    → (Bytes → Client → Command (Option Client))
    → Command (Option Client)
complete_round [] left client again = again left client
complete_round (name ∷ arguments) left client again = do
  reply ← execute (name ∷ arguments)
  again left (answer reply client)

abbrev pub round :
    RespParseResult
    → Bytes
    → Client
    → (Bytes → Client → Command (Option Client))
    → Command (Option Client)
round result pending client again = elim result.status [
  | incomplete ↦ pure (some (record client { input = pending }))
  | error_status ↦ pure (some (record (refuse result client) { input = pending }))
  | complete ↦ complete_round result.arguments (drop result.consumed_bytes pending) client again
]

-- `none` is the end of the fuel.
unfoldable pub process_loop : ℕ → Bytes → Client → Command (Option Client)
unfolding parse_resp_command resp_error execute
process_loop zero pending client = pure none
process_loop (suc fuel) [] client = pure (some (record client { input = [] }))
process_loop (suc fuel) (b ∷ pending) client =
    let again = process_loop fuel in
    if client.close_after_write
    then pure (some (record client { input = b ∷ pending }))
    else round (parse_resp_command (b ∷ pending)) (b ∷ pending) client again

-- Each round but the last takes a byte, so that a round for each byte and one more are enough.
unfoldable pub process_input : Client → Command (Option Client)
unfolding process_loop
process_input client = process_loop (length client.input + 1) client.input client

-- What `send` answers. It takes no more bytes than it is offered.
pub data SendAnswer : Type 0 where
  sent : ℕ → SendAnswer
  send_interrupted send_would_block send_failed : SendAnswer

-- How the loop of `writeToClient` ends; `waiting` when `send` has no answer yet.
pub data Sent : Type 0 where
  stopped failed waiting : Sent

abbrev pub unsent : Client → Bytes
unsent client = drop client.output_offset client.output

-- The bytes that the peer was sent stand beside the client.
unfoldable pub write_loop : List SendAnswer → Client → Bytes → Sent × Client × Bytes
write_loop [] client wire =
    if pending_output client == 0 then (stopped, client, wire) else (waiting, client, wire)
write_loop (sent n ∷ answers) client wire =
    let taken = take n (unsent client) in
    let rest =
      write_loop answers (record client { output_offset = client.output_offset + length taken })
        (wire ++ taken) in
    if pending_output client == 0
    then (stopped, client, wire)
    else if n == 0
    then (failed, client, wire)
    else rest
write_loop (send_interrupted ∷ answers) client wire =
    let rest = write_loop answers client wire in
    if pending_output client == 0 then (stopped, client, wire) else rest
write_loop (send_would_block ∷ answers) client wire = (stopped, client, wire)
write_loop (send_failed ∷ answers) client wire =
    if pending_output client == 0 then (stopped, client, wire) else (failed, client, wire)

unfoldable pub compact : Client → Client
compact client =
    if client.output_offset == length client.output
    then record client { output = []; output_offset = 0 }
    else if ltb (length client.output / 2) client.output_offset
    then record client { output = drop client.output_offset client.output; output_offset = 0 }
    else client

abbrev pub after_write : Sent × Client × Bytes → Option Bool × Client × Bytes
after_write (stopped, client, wire) = (some true, compact client, wire)
after_write (failed, client, wire) = (some false, client, wire)
after_write (waiting, client, wire) = (none, client, wire)

-- The Boolean is whether the connection stays; `none` while `send` has no answer.
unfoldable pub write_to_client : List SendAnswer → Client → Bytes → Option Bool × Client × Bytes
unfolding write_loop compact
write_to_client answers client wire = after_write (write_loop answers client wire)

-- What `recv` answers: some bytes (a first one and the others), the end of the stream, or a failure.
pub data Received : Type 0 where
  chunk : ℕ → Bytes → Received
  closed receive_interrupted receive_would_block receive_failed : Received

-- How the loop of `readFromClient` ends: by the end of the stream, with what was read, or broken.
pub data ReadEnd : Type 0 where
  peer_closed : Client → ReadEnd
  was_read : Client → ReadEnd
  broken : Client → ReadEnd

-- The loop of `readFromClient`, with the reads left; `answers n` is the answer of the read number `n`.
unfoldable pub read_loop : ℕ → ℕ → (ℕ → Received) → Client → ReadEnd
read_loop zero n answers client = was_read client
read_loop (suc reads) n answers client =
    let next = read_loop reads (n + 1) answers in
    elim (answers n) [
      | chunk b bytes ↦
          let filled = record client { input = client.input ++ b ∷ bytes } in
          if ltb (length (b ∷ bytes)) read_chunk_size then was_read filled else next filled
      | closed ↦ peer_closed client
      | receive_interrupted ↦ next client
      | receive_would_block ↦ was_read client
      | receive_failed ↦ broken client
    ]

-- Here and in what follows `none` is the end of the fuel of `process_input`.
abbrev pub close_after : Option Client → Option (Bool × Client)
close_after none = none
close_after (some client) = some (true, record client { close_after_write = true })

abbrev pub keep_open : Option Client → Option (Bool × Client)
keep_open none = none
keep_open (some client) = some (true, client)

unfoldable pub after_read : ReadEnd → Command (Option (Bool × Client))
unfolding process_input
after_read (peer_closed client) = do processed ← process_input client; pure (close_after processed)
after_read (broken client) = pure (some (false, client))
after_read (was_read client) =
    if ltb max_query_buffer (length client.input)
    then pure (some (false, client))
    else (do processed ← process_input client; pure (keep_open processed))

-- The Boolean is whether the connection stays.
unfoldable pub read_from_client : (ℕ → Received) → Client → Command (Option (Bool × Client))
unfolding read_loop after_read
read_from_client answers client = after_read (read_loop max_reads_per_event 0 answers client)
