-- ===== src/Server/Pipeline.antt =====
-- src/tcp_server.cpp: `processInput` on whole commands runs them one after the other.
use native.Mathlib.Nat.{le_refl}
use flash_kv.Common.{
  ℕ, zero, suc, ◌+◌, ◌≤◌, ◌≡◌, refl, ap, ◌∙◌, arith, Bool, true, false, Option, some, List, [], ◌∷◌,
  ◌++◌, Bytes, if◌then◌else◌, length, drop, append_assoc, length-append, Bool-cases, inl, inr,
}
use flash_kv.Common.Exec.{Outcome, ok, throw, continue, pure, ◌>>=◌}
use flash_kv.Resp.Encode.{resp_array}
use flash_kv.Resp.Parse.{incomplete, complete_result, parse_resp_command}
use flash_kv.Resp.RoundTrip.{drop-append, parse_resp_command-resp_array}
use flash_kv.Aof.Replay.{AreLoggable, encoded}
use flash_kv.Commands.Processor.{Command, CommandProcessor, CommandReply, Arguments}
use flash_kv.Commands.Execute.{execute}
use flash_kv.Server.Client.{Client, answer, round, process_loop, process_input}

-- A reply behind the output; the last one, where the connection is to be closed behind it.
abbrev pub replied : Bytes → Client → Client
replied payload client = record client { output = client.output ++ payload }

abbrev pub closed_with : Bytes → Bytes → Client → Client
closed_with payload unread client = record client {
  input = unread;
  output = client.output ++ payload;
  close_after_write = true;
}

-- The commands in turn, up to one that closes the connection: what follows it stays unread.
abbrev pub answer_all : List Arguments → Bytes → Client → Command (Option Client)
answer_all [] rest client = pure (some (record client { input = rest }))
answer_all (command ∷ commands) rest client =
    if client.close_after_write
    then pure (some (record client { input = encoded (command ∷ commands) ++ rest }))
    else (do
      reply ← execute command
      if reply.close_connection
          then pure (some (closed_with reply.payload (encoded commands ++ rest) client))
          else answer_all commands rest (replied reply.payload client))

-- On a connection that is to be closed nothing more is answered.
answer_all_closed :
    (commands : List Arguments) (rest : Bytes) (client : Client) (p : CommandProcessor)
    → client.close_after_write ≡ true
    → answer_all commands rest client p
      ≡ pure (some (record client { input = encoded commands ++ rest })) p
answer_all_closed [] rest client p closing = refl
answer_all_closed (command ∷ commands) rest client p closing = rw closing refl

-- What the code makes of a reply.
answered :
    (commands : List Arguments) (rest : Bytes) (client : Client) (reply : CommandReply)
    (p : CommandProcessor)
    → answer_all commands rest (answer reply client) p
      ≡ (if reply.close_connection
            then pure (some (closed_with reply.payload (encoded commands ++ rest) client))
            else answer_all commands rest (replied reply.payload client))
          p
answered commands rest client reply p = elim (Bool-cases reply.close_connection) [
  | inl closes ↦ rw closes (
      answer_all_closed commands rest
        (record (replied reply.payload client) { close_after_write = true }) p refl)
  | inr stays ↦ rw stays refl
]

continue-ap :
    {A B : Type 0} (r : Outcome A × CommandProcessor) {f g : A → Command B}
    → ((a : A) (p : CommandProcessor) → f a p ≡ g a p)
    → continue r.0 f r.1 ≡ continue r.0 g r.1
continue-ap (ok a, p) h = h a p
continue-ap (throw e, p) h = refl

if-ap :
    (m n n' : Command (Option Client)) (b : Bool) (p : CommandProcessor)
    → n p ≡ n' p
    → (if b then m else n) p ≡ (if b then m else n') p
if-ap m n n' true p e = refl
if-ap m n n' false p e = e

-- Behind the commands the input ends inside a command.
process_loop_rest :
    (fuel : ℕ) (rest : Bytes) (client : Client) (p : CommandProcessor)
    → (parse_resp_command rest).status ≡ incomplete
    → process_loop (suc fuel) rest client p ≡ pure (some (record client { input = rest })) p
unfolding process_loop
process_loop_rest fuel [] client p e = refl
process_loop_rest fuel (b ∷ rest) client p e = go client.close_after_write
  where
    go :
        (closing : Bool)
        → (if closing
              then pure (some (record client { input = b ∷ rest }))
              else round (parse_resp_command (b ∷ rest)) (b ∷ rest) client (process_loop fuel))
            p
          ≡ pure (some (record client { input = b ∷ rest })) p
    go true = refl
    go false = rw (e, round) refl

-- One round of the loop, at a whole command.
process_loop_complete :
    (fuel b : ℕ) (text name : Bytes) (arguments : List Bytes) (consumed : ℕ) (client : Client)
    (p : CommandProcessor)
    → parse_resp_command (b ∷ text) ≡ complete_result (name ∷ arguments) consumed
    → process_loop (suc fuel) (b ∷ text) client p
      ≡ (if client.close_after_write then pure (some (record client { input = b ∷ text })) else (do
        reply ← execute (name ∷ arguments)
        process_loop fuel (drop consumed (b ∷ text)) (answer reply client)))
          p
unfolding process_loop
process_loop_complete fuel b text name arguments consumed client p e =
    ap
      (λ r.
        (if client.close_after_write
            then pure (some (record client { input = b ∷ text }))
            else round r (b ∷ text) client (process_loop fuel))
          p)
      e

process_loop-answer_all :
    (fuel : ℕ) (commands : List Arguments) (rest : Bytes) (client : Client) (p : CommandProcessor)
    → AreLoggable commands
    → (parse_resp_command rest).status ≡ incomplete
    → length (encoded commands ++ rest) ≤ fuel
    → process_loop (suc fuel) (encoded commands ++ rest) client p
      ≡ answer_all commands rest client p
unfolding resp_array
process_loop-answer_all fuel [] rest client p h e enough = process_loop_rest fuel rest client p e
process_loop-answer_all fuel ([] ∷ commands) rest client p h e enough = absurd h.0
process_loop-answer_all zero ((name ∷ arguments) ∷ commands) rest client p h e enough =
    absurd (omega (arith, enough))
process_loop-answer_all (suc fuel) ((name ∷ arguments) ∷ commands) rest client p h e enough =
    let c = name ∷ arguments in
    let behind = encoded commands ++ rest in
    let consumed = length (resp_array c) in
    let shape : encoded (c ∷ commands) ++ rest ≡ resp_array c ++ behind =
      append_assoc (resp_array c) (encoded commands) rest in
    let short : length behind ≤ fuel =
      omega (arith, enough, ap length shape, length-append (resp_array c) behind) in
    rw shape (
      process_loop_complete (suc fuel) b'*' _ name arguments consumed client p
        (parse_resp_command-resp_array c behind h.0.0 h.0.1)
      ∙ if-ap _ _ _ client.close_after_write p (
          continue-ap (execute c p) (λ reply q. rw (drop-append (resp_array c) behind) (
            process_loop-answer_all fuel commands rest (answer reply client) q h.1 e short
            ∙ answered commands rest client reply q))))

-- Where the input of a client is the encoding of some commands, each with a name and within the
-- parser's limits, followed by bytes that are not a whole command, `processInput` executes the
-- commands one after the other and puts the replies behind the output in this order. The first
-- reply that closes the connection sets the flag of the client and leaves the other commands
-- unread in the input; on a connection that is to be closed already no command is executed. The
-- bytes behind the commands stay in the input.
pub process_input-answer_all :
    (commands : List Arguments) (rest : Bytes) (client : Client) (p : CommandProcessor)
    → AreLoggable commands
    → (parse_resp_command rest).status ≡ incomplete
    → client.input ≡ encoded commands ++ rest
    → process_input client p ≡ answer_all commands rest client p
unfolding process_input
process_input-answer_all commands rest client p h e same =
    let plus : length client.input + 1 ≡ suc (length client.input) = omega arith in
    rw plus (
      ap (λ text. process_loop (suc (length text)) text client p) same
      ∙ process_loop-answer_all (length (encoded commands ++ rest)) commands rest client p h e
          (le_refl (length (encoded commands ++ rest))))
