-- ===== src/Server/Input.antt =====
-- src/tcp_server.cpp: `processInput` ends, and stops where the input ends inside a command.
use native.Mathlib.Nat.{le_refl}
use flash_kv.Common.{
  ℕ, zero, suc, ◌+◌, ◌≤◌, ◌≡◌, refl, sym, ap, ◌∙◌, arith, Bool, true, false, Option, some, List, [],
  ◌∷◌, ◌++◌, Bytes, if◌then◌else◌, length, drop, append_assoc, append-nil, inl, inr, ◌⊎◌,
}
use flash_kv.Common.Exec.{Outcome, ok, throw, continue, pure}
use flash_kv.Resp.Encode.{resp_error}
use flash_kv.Resp.Parse.{
  RespParseResult, RespParseStatus, complete, incomplete, error_status, parse_resp_command,
}
use flash_kv.Resp.Bounds.{parse_resp_command-consumed_bytes, length-drop}
use flash_kv.Database.Filled.{IsSound}
use flash_kv.Commands.Processor.{Command, CommandProcessor, CommandReply}
use flash_kv.Commands.Execute.{execute}
use flash_kv.Commands.Answers.{execute-IsSound}
use flash_kv.Server.Client.{
  Client, refuse, answer, complete_round, round, process_loop, process_input,
}

-- What a run on the input ends with.
pub record IsProcessed (client : Client) (r : Outcome (Option Client) × CommandProcessor)
    : Type 0 where
  pub after : Client
  pub returned : r.0 ≡ ok (some after)
  pub sound : IsSound r.1.database
  pub settled :
      (after.close_after_write ≡ true) ⊎ ((parse_resp_command after.input).status ≡ incomplete)
  pub replies : Bytes
  pub answered : after.output ≡ client.output ++ replies
  pub kept : after.output_offset ≡ client.output_offset

-- What the next round has to show.
abbrev IsNext : ℕ → (Bytes → Client → Command (Option Client)) → Type 0
IsNext n again =
    (left : Bytes) (client : Client) (p : CommandProcessor)
    → length left ≤ n
    → IsSound p.database
    → IsProcessed client (again left client p)

stay :
    (left : Bytes) (client : Client) (p : CommandProcessor)
    → IsSound p.database
    → (client.close_after_write ≡ true) ⊎ ((parse_resp_command left).status ≡ incomplete)
    → IsProcessed client (ok (some (record client { input = left })), p)
stay left client p sound settled = record {
  after = record client { input = left };
  returned = refl;
  sound = sound;
  settled = settled;
  replies = [];
  answered = sym (append-nil client.output);
  kept = refl;
}

after_reply :
    (n : ℕ) (again : Bytes → Client → Command (Option Client))
    → IsNext n again
    → (left : Bytes) (client : Client) → length left ≤ n
    → (r : Outcome CommandReply × CommandProcessor) (reply : CommandReply) → r.0 ≡ ok reply
    → IsSound r.1.database
    → IsProcessed client (continue r.0 (λ reply. again left (answer reply client)) r.1)
after_reply n again next left client short (throw e, p) reply q sound = ground (arith, q)
after_reply n again next left client short (ok r, p) reply q sound =
    let h = next left (answer r client) p short sound in
    record {
      after = h.after;
      returned = h.returned;
      sound = h.sound;
      settled = h.settled;
      replies = r.payload ++ h.replies;
      answered = h.answered ∙ append_assoc client.output r.payload h.replies;
      kept = h.kept;
    }

complete_round-IsProcessed :
    (n : ℕ) (again : Bytes → Client → Command (Option Client))
    → IsNext n again
    → (arguments : List Bytes) (left : Bytes) (client : Client) (p : CommandProcessor)
    → length left ≤ n
    → IsSound p.database
    → IsProcessed client (complete_round arguments left client again p)
complete_round-IsProcessed n again next [] left client p short sound =
    next left client p short sound
complete_round-IsProcessed n again next (name ∷ arguments) left client p short sound =
    let (kept, reply, replied) = execute-IsSound (name ∷ arguments) p sound in
    after_reply n again next left client short (execute (name ∷ arguments) p) reply replied kept

round-IsProcessed :
    (n b : ℕ) (pending : Bytes) (again : Bytes → Client → Command (Option Client))
    → IsNext n again
    → (result : RespParseResult) → parse_resp_command (b ∷ pending) ≡ result
    → (client : Client) (p : CommandProcessor) → length (b ∷ pending) ≤ suc n
    → IsSound p.database
    → IsProcessed client (round result (b ∷ pending) client again p)
round-IsProcessed n b pending again next result e client p short sound = go result.status refl
  where
    go :
        (status : RespParseStatus)
        → result.status ≡ status
        → IsProcessed client (round result (b ∷ pending) client again p)
    go incomplete s = rw s (stay (b ∷ pending) client p sound (inr (ap (λ r. r.status) e ∙ s)))
    go error_status s = rw s (record {
      after = record (refuse result client) { input = b ∷ pending };
      returned = refl;
      sound = sound;
      settled = inl refl;
      replies = resp_error result.error;
      answered = refl;
      kept = refl;
    })
    go complete s =
        let (some_, within) =
          parse_resp_command-consumed_bytes (b ∷ pending) (ap (λ r. r.status) e ∙ s) in
        let taken : (parse_resp_command (b ∷ pending)).consumed_bytes ≡ result.consumed_bytes =
          ap (λ r. r.consumed_bytes) e in
        rw s (
          complete_round-IsProcessed n again next result.arguments
            (drop result.consumed_bytes (b ∷ pending)) client p
            (omega (
              arith,
              some_,
              within,
              taken,
              short,
              length-drop (parse_resp_command (b ∷ pending)).consumed_bytes (b ∷ pending) within,
              ap (λ k. length (drop k (b ∷ pending))) taken,
            ))
            sound)

-- By the test of the loop.
tested :
    (client : Client) (m n : Command (Option Client)) (p : CommandProcessor) (closing : Bool)
    → client.close_after_write ≡ closing
    → (client.close_after_write ≡ true → IsProcessed client (m p))
    → IsProcessed client (n p)
    → IsProcessed client ((if closing then m else n) p)
tested client m n p true e hm hn = hm e
tested client m n p false e hm hn = hn

process_loop-IsNext : (n : ℕ) → IsNext n (process_loop (suc n))
unfolding process_loop
process_loop-IsNext n [] client p short sound =
    stay [] client p sound (inr (unfold parse_resp_command in refl))
process_loop-IsNext zero (b ∷ left) client p short sound = absurd (omega (arith, short))
process_loop-IsNext (suc n) (b ∷ left) client p short sound =
    tested client (pure (some (record client { input = b ∷ left })))
      (round (parse_resp_command (b ∷ left)) (b ∷ left) client (process_loop (suc n))) p
      client.close_after_write refl (λ closing. stay (b ∷ left) client p sound (inl closing))
      (round-IsProcessed n b left (process_loop (suc n)) (process_loop-IsNext n)
        (parse_resp_command (b ∷ left)) refl client p short sound)

-- On a sound database `processInput` ends on every input, with its fuel of one round for each byte
-- and one: the database is sound again, the connection is to be closed or the rest of the input is
-- not a whole command, and the output has grown at its end only, with the offset of the sent bytes
-- unchanged.
pub process_input-IsProcessed :
    (client : Client) (p : CommandProcessor)
    → IsSound p.database
    → (after : Client) × (replies : Bytes) × ((process_input client p).0 ≡ ok (some after))
      × IsSound (process_input client p).1.database
      × ((after.close_after_write ≡ true) ⊎ ((parse_resp_command after.input).status ≡ incomplete))
      × (after.output ≡ client.output ++ replies)
      × (after.output_offset ≡ client.output_offset)
unfolding process_input
process_input-IsProcessed client p sound =
    let plus : length client.input + 1 ≡ suc (length client.input) = omega arith in
    let h =
      process_loop-IsNext (length client.input) client.input client p
        (le_refl (length client.input)) sound in
    rw plus (h.after, h.replies, h.returned, h.sound, h.settled, h.answered, h.kept)
