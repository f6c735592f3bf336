-- ===== src/Server/Order.antt =====
-- src/tcp_server.cpp, `handleClientEvents`: the log is written before replies leave.
use flash_kv.Common.{
  ◌≡◌, refl, arith, Bool, true, false, Option, none, some, List, [], ◌∷◌, Bytes, ◌==◌, ◌⊎◌, inl,
  inr, Bool-cases, subst,
}
use flash_kv.Common.Exec.{Outcome, ok, throw, pure, continue, ◌>>=◌}
use flash_kv.Aof.Flush.{
  AppendOnlyFile, Answer, Written, all_written, broken, blocked, flushed, flush_bytes, flush,
  write_loop,
}
use flash_kv.Commands.Processor.{CommandProcessor}
use flash_kv.Server.Client.{Client, pending_output, write_to_client}
use flash_kv.Server.Events.{
  Connection, PollEvents, Answers, Handled, done, waiting, exhausted, sent_to, send_replies,
  flush_log, after_flush, deliver, finished, receive, client_events,
}

-- The bytes of the log are in the file, if the file is open and the last write of it went well.
abbrev pub IsWritten : Option AppendOnlyFile → Type 0
IsWritten none = Unit {0}
IsWritten (some file) = (file.buffer ≡ []) ⊎ ((file.is_open ≡ false) ⊎ (file.write_failed ≡ true))

flush-IsWritten :
    (answers : List Answer) (file : AppendOnlyFile) (b : Bool)
    → (flush answers file).0 ≡ some b
    → IsWritten (some (flush answers file).1)
unfolding flush
flush-IsWritten answers file b returned = go file.is_open refl file.buffer refl returned
  where
    go :
        (is_open : Bool)
        → file.is_open ≡ is_open
        → (left : Bytes) → file.buffer ≡ left
        → (flush_bytes answers is_open left file).0 ≡ some b
        → IsWritten (some (flush_bytes answers is_open left file).1)
    go is_open e [] same r = unfold flush_bytes in inl same
    go false e (c ∷ left) same r = unfold flush_bytes in inr (inl e)
    go true e (c ∷ left) same r =
        unfold flush_bytes in ended (write_loop answers (c ∷ left) file.contents) r
      where
        ended : (w : Written) → (flushed file w).0 ≡ some b → IsWritten (some (flushed file w).1)
        ended (all_written contents) r = inl refl
        ended (broken rest contents) r = inr (inr refl)
        ended (blocked rest contents) r = ground (arith, r)

-- No byte has left, or the log was written when the replies were sent.
abbrev pub IsOrdered : Connection → Connection → Type 0
IsOrdered before after =
    ((after.wire ≡ before.wire) × (after.logs ≡ before.logs))
    ⊎ ((log : Option AppendOnlyFile) × (after.logs ≡ log ∷ before.logs) × IsWritten log)

abbrev AreOrdered : Connection → Outcome Handled → Type 0
AreOrdered before (ok (done (keep, after))) = IsOrdered before after
AreOrdered before _ = Unit {0}

module _ (answers : Answers) (before : Connection) where
  sent_to-IsOrdered :
      (connection : Connection) (log : Option AppendOnlyFile)
      → connection.logs ≡ log ∷ before.logs
      → IsWritten log
      → (r : Option Bool × Client × Bytes) → AreOrdered before (ok (sent_to connection r))
  sent_to-IsOrdered connection log e h (none, client, wire) = tt
  sent_to-IsOrdered connection log e h (some keep, client, wire) = inr (log, e, h)

  abbrev observing : Client → Option AppendOnlyFile → Connection
  observing client log = record before { client = client; logs = log ∷ before.logs }

  after_flush-IsOrdered :
      (client : Client) (p : CommandProcessor) (aof : Option AppendOnlyFile)
      → AreOrdered before
          (continue
            (ok (flush_log answers.written aof).0)
            (after_flush answers.taken (record before { client = client }))
            (record p { aof = (flush_log answers.written aof).1 })).0
  unfolding send_replies
  after_flush-IsOrdered client p none =
      sent_to-IsOrdered (observing client none) none refl tt
        (write_to_client answers.taken client before.wire)
  after_flush-IsOrdered client p (some f) = go (flush answers.written f).0 refl
    where
      go :
          (b : Option Bool)
          → (flush answers.written f).0 ≡ b
          → AreOrdered before
              (after_flush answers.taken
                (record before { client = client })
                b
                (record p { aof = some (flush answers.written f).1 })).0
      go none e = tt
      go (some b) e =
          let log = some (flush answers.written f).1 in
          sent_to-IsOrdered (observing client log) log refl (flush-IsWritten answers.written f b e)
            (write_to_client answers.taken client before.wire)

  deliver-IsOrdered :
      (read : Option (Bool × Client)) (p : CommandProcessor)
      → AreOrdered before (deliver answers before read p).0
  unfolding deliver
  deliver-IsOrdered none p = tt
  deliver-IsOrdered (some (false, client)) p = inl (refl, refl)
  deliver-IsOrdered (some (true, client)) p = elim (Bool-cases (pending_output client == 0)) [
    | inl none_ ↦ rw none_ (inl (refl, refl))
    | inr more ↦ rw more (after_flush-IsOrdered client p p.aof)
  ]

  ends :
      (r : Outcome Handled × CommandProcessor)
      → AreOrdered before r.0
      → AreOrdered before (continue r.0 (λ h. pure (finished h)) r.1).0
  ends (throw e, q) h = tt
  ends (ok waiting, q) h = tt
  ends (ok exhausted, q) h = tt
  ends (ok (done (false, c)), q) h = h
  ends (ok (done (true, c)), q) h = h

  handled_after :
      (r : Outcome (Option (Bool × Client)) × CommandProcessor)
      → AreOrdered before
          (continue r.0 (λ read. deliver answers before read >>= λ h. pure (finished h)) r.1).0
  handled_after (throw e, q) = tt
  handled_after (ok read, q) = ends (deliver answers before read q) (deliver-IsOrdered read q)

-- Where the handling of an event on a client comes to an end, either the peer was sent nothing and
-- `writeToClient` was not called, or it was called once, and the log as it was at this call had an
-- empty buffer, was not open, or had a failed write; without a log nothing is asked.
pub client_events_order :
    (events : PollEvents) (answers : Answers) (connection : Connection) (p : CommandProcessor)
    (keep : Bool) (after : Connection)
    → (client_events events answers connection p).0 ≡ ok (done (keep, after))
    → IsOrdered connection after
unfolding client_events
client_events_order events answers connection p keep after o =
    subst (AreOrdered connection) o
      (handled_after answers connection (receive events answers connection.client p))
