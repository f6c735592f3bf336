-- ===== src/Server/Events.antt =====
-- src/tcp_server.cpp: `acceptClients`, `handleClientEvents` and the periodic work of `run`.
use flash_kv.Common.{
  ℕ, ◌+◌, Bool, true, false, not, ◌&&◌, Option, none, some, List, [], ◌∷◌, ◌++◌, Bytes,
  if◌then◌else◌, ◌==◌, length,
}
use flash_kv.Common.Exec.{Outcome, ok, throw, pure, ◌>>=◌}
use flash_kv.Aof.Flush.{AppendOnlyFile, Answer, flush}
use flash_kv.Commands.Processor.{Command, CommandProcessor}
use flash_kv.Server.Client.{
  Client, new_client, pending_output, Received, SendAnswer, read_from_client, write_to_client,
}

-- A socket's client, the bytes that its peer was sent, and the log as it was at each call of
-- `writeToClient`, the latest first. The last field is an observation that the code does not keep.
pub record Connection : Type 0 where
  pub client : Client
  pub wire : Bytes
  pub logs : List (Option AppendOnlyFile)

-- The `revents` of a socket: POLLERR or POLLNVAL, and POLLIN or POLLHUP.
pub record PollEvents : Type 0 where
  pub failed : Bool
  pub readable : Bool

-- What the system answers while one event is handled: `recv`, the `write` of the log, `send`.
pub record Answers : Type 0 where
  pub received : ℕ → Received
  pub written : List Answer
  pub taken : List SendAnswer

-- How the handling ends: `waiting` while a system call has no answer, and `exhausted` at the end of
-- the fuel of `process_input`, which the code does not have.
pub data Progress (A : Type 0) : Type 0 where
  done : A → Progress A
  waiting exhausted : Progress A

-- Whether the connection stays.
abbrev pub Handled : Type 0
Handled = Progress (Bool × Connection)

abbrev pub flush_log : List Answer → Option AppendOnlyFile → Option Bool × Option AppendOnlyFile
flush_log answers none = (some true, none)
flush_log answers (some file) = let (result, file') = flush answers file in (result, some file')

-- `aof->flush()`: its result is not looked at.
abbrev pub flush_aof : List Answer → Command (Option Bool)
flush_aof answers p =
    let (result, aof) = flush_log answers p.aof in (ok result, record p { aof = aof })

abbrev pub sent_to : Connection → Option Bool × Client × Bytes → Handled
sent_to connection (none, client, wire) = waiting
sent_to connection (some keep, client, wire) =
    done (keep, record connection { client = client; wire = wire })

-- `writeToClient`, with the log at the time of the call.
unfoldable pub send_replies : List SendAnswer → Connection → Command Handled
unfolding write_to_client
send_replies answers connection p =
    let observed = record connection { logs = p.aof ∷ connection.logs } in
    (ok (sent_to observed (write_to_client answers connection.client connection.wire)), p)

abbrev pub after_flush : List SendAnswer → Connection → Option Bool → Command Handled
after_flush answers connection none = pure waiting
after_flush answers connection (some _) = send_replies answers connection

-- The log is flushed before the replies leave.
unfoldable pub deliver : Answers → Connection → Option (Bool × Client) → Command Handled
unfolding flush send_replies
deliver answers connection none = pure exhausted
deliver answers connection (some (false, client)) =
    pure (done (false, record connection { client = client }))
deliver answers connection (some (true, client)) =
    if pending_output client == 0
    then pure (done (true, record connection { client = client }))
    else (do
      flushed ← flush_aof answers.written
      after_flush answers.taken (record connection { client = client }) flushed)

-- A connection that is to be closed stays until its replies are sent.
abbrev pub finished : Handled → Handled
finished waiting = waiting
finished exhausted = exhausted
finished (done (false, connection)) = done (false, connection)
finished (done (true, connection)) =
    done (
      not (connection.client.close_after_write && pending_output connection.client == 0),
      connection,
    )

unfoldable pub receive : PollEvents → Answers → Client → Command (Option (Bool × Client))
unfolding read_from_client
receive events answers client =
    if not events.failed && events.readable
    then read_from_client answers.received client
    else pure (some (not events.failed, client))

-- `handleClientEvents` on the client that was found.
unfoldable pub client_events : PollEvents → Answers → Connection → Command Handled
unfolding receive deliver
client_events events answers connection = do
  read ← receive events answers connection.client
  handled ← deliver answers connection read
  pure (finished handled)

pub record ServerState : Type 0 where
  pub processor : CommandProcessor
  pub clients : List (ℕ × Connection)

unfoldable pub find_client : ℕ → List (ℕ × Connection) → Option Connection
find_client socket [] = none
find_client socket ((key, connection) ∷ clients) =
    if key == socket then some connection else find_client socket clients

unfoldable pub erase_client : ℕ → List (ℕ × Connection) → List (ℕ × Connection)
erase_client socket [] = []
erase_client socket ((key, connection) ∷ clients) =
    let rest = erase_client socket clients in
    if key == socket then clients else (key, connection) ∷ rest

-- The client of a socket changes in place.
unfoldable pub set_client : ℕ → Connection → List (ℕ × Connection) → List (ℕ × Connection)
set_client socket changed [] = []
set_client socket changed ((key, connection) ∷ clients) =
    let rest = set_client socket changed clients in
    if key == socket then (key, changed) ∷ clients else (key, connection) ∷ rest

abbrev pub set_connected : ℕ → CommandProcessor → CommandProcessor
set_connected count p = record p {
  server_stats = record p.server_stats { connected_clients = count };
}

abbrev pub closed_or_kept : ℕ → Handled → ServerState → Progress ServerState
closed_or_kept socket waiting s = waiting
closed_or_kept socket exhausted s = exhausted
closed_or_kept socket (done (true, connection)) s =
    done (record s { clients = set_client socket connection s.clients })
closed_or_kept socket (done (false, connection)) s =
    let clients = erase_client socket s.clients in
    done (record { processor = set_connected (length clients) s.processor; clients = clients })

-- Behind the events of the client.
abbrev pub after_events :
    ℕ → Outcome Handled × CommandProcessor → ServerState → Outcome (Progress ServerState)
after_events socket (throw e, p) s = throw e
after_events socket (ok handled, p) s =
    ok (closed_or_kept socket handled (record s { processor = p }))

unfoldable pub handle_client_events :
    ℕ → PollEvents → Answers → ServerState → Outcome (Progress ServerState)
unfolding client_events find_client set_client erase_client
handle_client_events socket events answers s = elim (find_client socket s.clients) [
  | none ↦ ok (done s)
  | some connection ↦ after_events socket (client_events events answers connection s.processor) s
]

-- `emplace` changes nothing at a key that is there.
abbrev pub emplaced : ℕ → Option Connection → List (ℕ × Connection) → List (ℕ × Connection)
emplaced socket none clients =
    clients ++ (socket, record { client = new_client; wire = []; logs = [] }) ∷ []
emplaced socket (some connection) clients = clients

-- One round of `acceptClients`, for a socket that the system has made non-blocking.
unfoldable pub accept_client : ℕ → ServerState → ServerState
unfolding find_client
accept_client socket s =
    let clients = emplaced socket (find_client socket s.clients) s.clients in
    let stats = s.processor.server_stats in
    record {
      processor = record s.processor {
        server_stats = record stats {
          total_connections = stats.total_connections + 1;
          connected_clients = length clients;
        };
      };
      clients = clients;
    }
