-- ===== src/Server/Returns.antt =====
-- src/tcp_server.cpp: the handling of the events of a client returns, on a sound database.
use flash_kv.Common.{
  ◌≡◌, refl, arith, Bool, true, false, not, ◌&&◌, ◌==◌, Option, none, some, [], ◌∷◌, ◌++◌, Bytes,
  inl, inr, Bool-cases, length, ltb,
}
use flash_kv.Common.Exec.{Outcome, ok, throw, pure, continue, ◌>>=◌}
use flash_kv.Database.Filled.{IsSound}
use flash_kv.Aof.Flush.{AppendOnlyFile, failed, flush}
use flash_kv.Aof.Returns.{flush-ne-none}
use flash_kv.Server.Sending.{write_to_client-ne-none}
use flash_kv.Commands.Processor.{Command, CommandProcessor}
use flash_kv.Server.Client.{
  Client, send_would_block, write_to_client, pending_output, process_input, ReadEnd, peer_closed,
  was_read, broken, read_loop, after_read, read_from_client, close_after, keep_open,
  max_query_buffer, max_reads_per_event,
}
use flash_kv.Server.Input.{process_input-IsProcessed}
use flash_kv.Server.Events.{
  Connection, PollEvents, Answers, Progress, done, waiting, exhausted, Handled, flush_log,
  flush_aof, sent_to, send_replies, after_flush, deliver, finished, receive, client_events,
}

abbrev pub IsValue : {A : Type 0} → (A → Type 0) → Outcome A → Type 0
IsValue Q (ok a) = Q a
IsValue Q (throw e) = ⊥

-- The command returns a value of which `Q` holds, on a sound database.
abbrev pub IsReturned : {A : Type 0} → (A → Type 0) → Outcome A × CommandProcessor → Type 0
IsReturned Q (o, q) = IsValue Q o × IsSound q.database

abbrev pub Returns : {A : Type 0} → (A → Type 0) → Command A → Type 0
Returns Q m = (p : CommandProcessor) → IsSound p.database → IsReturned Q (m p)

pure-Returns :
    {A : Type 0} (Q : A → Type 0) (a : A) → Q a → Returns Q (pure {S = CommandProcessor} a)
pure-Returns Q a h p sound = (h, sound)

bind-Returns :
    {A B : Type 0} (Q : A → Type 0) (R : B → Type 0) (m : Command A) (f : A → Command B)
    → Returns Q m
    → ((a : A) → Q a → Returns R (f a))
    → Returns R (m >>= f)
bind-Returns {A} {B} Q R m f hm hf p h = go (m p) (hm p h)
  where
    go : (r : Outcome A × CommandProcessor) → IsReturned Q r → IsReturned R (continue r.0 f r.1)
    go (ok a, q) h = hf a h.0 q h.1
    go (throw e, q) h = absurd h.0

-- The fuel has been enough.
abbrev pub IsEnough : {A : Type 0} → Option A → Type 0
IsEnough none = ⊥
IsEnough (some a) = Unit {0}

process_input-Returns : (client : Client) → Returns IsEnough (process_input client)
process_input-Returns client p h =
    let (c, replies, same, sound, settled, output, offset) = process_input-IsProcessed client p h in
    (rw same tt, sound)

close_after-IsEnough : (c : Option Client) → IsEnough c → IsEnough (close_after c)
close_after-IsEnough none h = absurd h
close_after-IsEnough (some c) h = tt

keep_open-IsEnough : (c : Option Client) → IsEnough c → IsEnough (keep_open c)
keep_open-IsEnough none h = absurd h
keep_open-IsEnough (some c) h = tt

after_read-Returns : (end_ : ReadEnd) → Returns IsEnough (after_read end_)
unfolding after_read
after_read-Returns (peer_closed client) =
    bind-Returns IsEnough IsEnough (process_input client) (λ c. pure (close_after c))
      (process_input-Returns client)
      (λ c h. pure-Returns IsEnough (close_after c) (close_after-IsEnough c h))
after_read-Returns (broken client) = λ p sound. (tt, sound)
after_read-Returns (was_read client) =
    elim (Bool-cases (ltb max_query_buffer (length client.input))) [
      | inl big ↦ rw big (λ p sound. (tt, sound))
      | inr small ↦ rw small (
          bind-Returns IsEnough IsEnough (process_input client) (λ c. pure (keep_open c))
            (process_input-Returns client)
            (λ c h. pure-Returns IsEnough (keep_open c) (keep_open-IsEnough c h)))
    ]

receive-Returns :
    (events : PollEvents) (answers : Answers) (client : Client)
    → Returns IsEnough (receive events answers client)
unfolding receive read_from_client
receive-Returns events answers client = elim (Bool-cases (not events.failed && events.readable)) [
  | inl reads ↦
      rw reads (after_read-Returns (read_loop max_reads_per_event 0 answers.received client))
  | inr none_ ↦ rw none_ (λ p sound. (tt, sound))
]

-- Not at the end of the fuel; `W` is what is known where a system call has no answer.
abbrev pub IsKnown : {A : Type 0} → Type 0 → Progress A → Type 0
IsKnown W (done a) = Unit {0}
IsKnown W waiting = W
IsKnown W exhausted = ⊥

finished-IsKnown : (W : Type 0) (h : Handled) → IsKnown W h → IsKnown W (finished h)
finished-IsKnown W waiting h = h
finished-IsKnown W exhausted h = absurd h
finished-IsKnown W (done (false, c)) h = tt
finished-IsKnown W (done (true, c)) h = tt

sent_to-IsKnown :
    (W : Type 0) (connection : Connection) (r : Option Bool × Client × Bytes)
    → (r.0 ≡ none → W)
    → IsKnown W (sent_to connection r)
sent_to-IsKnown W connection (none, client, wire) h = h refl
sent_to-IsKnown W connection (some keep, client, wire) h = tt

module _ (W : Type 0) (answers : Answers)
    (unwritten : (file : AppendOnlyFile) → (flush answers.written file).0 ≡ none → W)
    (unsent : (client : Client) (wire : Bytes)
      → (write_to_client answers.taken client wire).0 ≡ none
      → W) where
  flush_aof-Returns : Returns (λ o. o ≡ none → W) (flush_aof answers.written)
  flush_aof-Returns p h = (known p.aof, h)
    where
      known : (aof : Option AppendOnlyFile) → (flush_log answers.written aof).0 ≡ none → W
      known none e = ground (arith, e)
      known (some file) e = unwritten file e

  after_flush-Returns :
      (connection : Connection) (flushed : Option Bool)
      → (flushed ≡ none → W)
      → Returns (IsKnown W) (after_flush answers.taken connection flushed)
  unfolding send_replies
  after_flush-Returns connection none h p sound = (h refl, sound)
  after_flush-Returns connection (some b) h p sound =
      let observed = record connection { logs = p.aof ∷ connection.logs } in
      (
        sent_to-IsKnown W observed (write_to_client answers.taken connection.client connection.wire)
            (unsent connection.client connection.wire),
        sound,
      )

  deliver-Returns :
      (connection : Connection) (read : Option (Bool × Client))
      → IsEnough read
      → Returns (IsKnown W) (deliver answers connection read)
  unfolding deliver
  deliver-Returns connection none h = absurd h
  deliver-Returns connection (some (false, client)) h = λ p sound. (tt, sound)
  deliver-Returns connection (some (true, client)) h =
      elim (Bool-cases (pending_output client == 0)) [
        | inl none_ ↦ rw none_ (λ p sound. (tt, sound))
        | inr more ↦ rw more (
            bind-Returns (λ o. o ≡ none → W) (IsKnown W) (flush_aof answers.written)
              (after_flush answers.taken (record connection { client = client })) flush_aof-Returns
              (after_flush-Returns (record connection { client = client })))
      ]

  pub client_events-Returns :
      (events : PollEvents) (connection : Connection)
      → Returns (IsKnown W) (client_events events answers connection)
  unfolding client_events
  client_events-Returns events connection =
      bind-Returns IsEnough (IsKnown W) (receive events answers connection.client) _
        (receive-Returns events answers connection.client)
        (λ read enough.
          bind-Returns (IsKnown W) (IsKnown W) (deliver answers connection read)
            (λ h. pure (finished h)) (deliver-Returns connection read enough)
            (λ h known. pure-Returns (IsKnown W) (finished h) (finished-IsKnown W h known)))

-- Answers of `write` up to a failure, and of `send` up to one that would block.
abbrev pub ended : Answers → Answers
ended answers = record answers {
  written = answers.written ++ failed ∷ [];
  taken = answers.taken ++ send_would_block ∷ [];
}

-- Then the system calls return.
pub ended-Returns :
    (events : PollEvents) (answers : Answers) (connection : Connection)
    → Returns (IsKnown ⊥) (client_events events (ended answers) connection)
ended-Returns events answers connection =
    client_events-Returns ⊥ (ended answers) (flush-ne-none answers.written)
      (write_to_client-ne-none answers.taken) events connection
