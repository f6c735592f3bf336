-- ===== src/Server/Reach.antt =====
-- src/tcp_server.cpp: the steps of `Server::run`, and the states they reach.
use flash_kv.Common.{ℕ, ◌≡◌, Bool, Option, some, [], Bytes}
use flash_kv.Common.Exec.{ok}
use flash_kv.Common.Int.{ℤ}
use flash_kv.Database.State.{empty_database}
use flash_kv.Database.Expiry.{active_expire_cycle}
use flash_kv.Database.Filled.{IsSound}
use flash_kv.Aof.Flush.{AppendOnlyFile, sync}
use flash_kv.Commands.Processor.{CommandProcessor}
use flash_kv.Server.Events.{
  PollEvents, Answers, Progress, done, waiting, exhausted, ServerState, handle_client_events,
  accept_client,
}
use flash_kv.Server.Options.{ServerConfig}
use flash_kv.Server.Startup.{start}

-- One piece of work of `run`, with what the system answers and the samples of the cycle.
pub data Step (s : ServerState) : ServerState → Type 0 where
  accepted : (socket : ℕ) → Step s (accept_client socket s)
  handled :
      (socket : ℕ) (events : PollEvents) (answers : Answers) (t : ServerState)
      → handle_client_events socket events answers s ≡ ok (done t)
      → Step s t
  expired :
      (samples : ℕ) (late : ℕ → Bool)
      → Step s (record s {
        processor = record s.processor {
          database = (active_expire_cycle samples late s.processor.database).1;
        };
      })
  synced :
      (answer : Bool) (file : AppendOnlyFile)
      → s.processor.aof ≡ some file
      → Step s (record s { processor = record s.processor { aof = some (sync answer file).1 } })

-- The states of a server that was started at any file.
pub data IsReachable : ServerState → Type 0 where
  started :
      (truncate : ℕ → Option Bytes) (opens : Bool) (contents : Option Bytes) (config : ServerConfig)
      (clock : ℕ → ℤ) (draw : ℕ → ℕ → ℕ) (p : CommandProcessor)
      → start truncate opens contents config (empty_database clock draw) ≡ some p
      → IsReachable (record { processor = p; clients = [] })
  after : (s t : ServerState) → IsReachable s → Step s t → IsReachable t

abbrev IsSoundState : Progress ServerState → Type 0
IsSoundState waiting = Unit {0}
IsSoundState exhausted = Unit {0}
IsSoundState (done s) = IsSound s.processor.database
