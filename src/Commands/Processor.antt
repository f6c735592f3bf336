-- ===== src/Commands/Processor.antt =====
-- src/commands.cpp: the state of `CommandProcessor`, its calls into `Database`, and the log.
use mathlib.Core.Option
use flash_kv.Common.{
  ℕ, ◌-◌, ◌^◌, Bool, Option, none, some, List, [], ◌∷◌, Bytes, codes, if◌then◌else◌, ltb, word,
}
use flash_kv.Common.Int.{ℤ, pos, negsuc}
use flash_kv.Common.Decimal.{to_string_ℤ}
use flash_kv.Common.Exec.{Exec, ok, pure, ◌>>=◌, ◌>>◌}
use flash_kv.Database.State.{Db, Database}
use flash_kv.Database.Expiry.{evict_if_needed, read_clock}
use flash_kv.Aof.Flush
use flash_kv.Aof.Flush.{AppendOnlyFile}
use flash_kv.Resp.Encode.{resp_error, resp_bulk_string, resp_null}

pub record ServerStats : Type 0 where
  pub start_time_ms : ℤ
  pub port : ℕ
  pub connected_clients : ℕ
  pub total_connections : ℕ
  pub total_commands : ℕ

pub record CommandReply : Type 0 where
  pub payload : Bytes
  pub close_connection : Bool

-- The database and the log are reached through references: nothing else changes them in a command.
pub record CommandProcessor : Type 0 where
  pub database : Database
  pub aof : Option AppendOnlyFile
  pub server_stats : ServerStats

abbrev pub Command : Type 0 → Type 0
Command A = Exec CommandProcessor A

abbrev pub Arguments : Type 0
Arguments = List Bytes

-- A method of `Database`.
abbrev pub call : {A : Type 0} → Db A → Command A
call m p = let (result, db) = m p.database in (result, record p { database = db })

abbrev pub gets : {A : Type 0} → (CommandProcessor → A) → Command A
gets f p = (ok (f p), p)

-- The constructor reads the clock.
unfoldable pub new_processor : Database → Option AppendOnlyFile → CommandProcessor
new_processor db aof =
    let (time, db') = read_clock db in
    record {
      database = db';
      aof = aof;
      server_stats = record {
        start_time_ms = db.clock db.clock_reads;
        port = 0;
        connected_clients = 0;
        total_connections = 0;
        total_commands = 0;
      };
    }

unfoldable pub propagate : Arguments → Command (Unit {0})
unfolding Flush.append
propagate arguments p = (ok tt, record p { aof = Option.map (Flush.append arguments) p.aof })

unfoldable pub propagate_expiry : Bytes → ℤ → Command (Unit {0})
unfolding propagate to_string_ℤ
propagate_expiry key unix_time_ms =
    propagate (codes "PEXPIREAT" ∷ key ∷ to_string_ℤ unix_time_ms ∷ [])

-- `propagate({"DEL", key})` for each key.
unfoldable pub propagate_deletions : List Bytes → Command (Unit {0})
unfolding propagate
propagate_deletions [] = pure tt
propagate_deletions (key ∷ keys) = do propagate (codes "DEL" ∷ key ∷ []); propagate_deletions keys

abbrev pub evict_keys : Command (Bool × List Bytes)
evict_keys p =
    let (within, keys, db) = evict_if_needed p.database in
    (ok (within, keys), record p { database = db })

-- `evictIfNeeded`, with the evicted keys written to the log.
unfoldable pub evict : Command Bool
unfolding propagate_deletions
evict = do (within, keys) ← evict_keys; propagate_deletions keys; pure within

-- static_cast<long long> of a std::size_t.
unfoldable pub signed : ℕ → ℤ
signed n = if ltb n (2 ^ 63) then pos n else negsuc (word - 1 - n)

unfoldable pub not_an_integer : Bytes
unfolding resp_error
not_an_integer = resp_error (codes "value is not an integer or out of range")

unfoldable pub syntax_error : Bytes
unfolding resp_error
syntax_error = resp_error (codes "syntax error")

unfoldable pub nullable_bulk : Option Bytes → Bytes
unfolding resp_bulk_string resp_null
nullable_bulk none = resp_null
nullable_bulk (some value) = resp_bulk_string value
