-- ===== src/Server/Sending.antt =====
-- src/tcp_server.cpp: `writeToClient` returns once `send` would block.
use flash_kv.Common.{
  ◌+◌, ◌≢◌, arith, Bool, true, false, none, List, [], ◌∷◌, ◌++◌, Bytes, if◌then◌else◌, ◌==◌, take,
  length,
}
use flash_kv.Server.Client.{
  Client, SendAnswer, sent, send_interrupted, send_would_block, send_failed, Sent, stopped, failed,
  waiting, pending_output, unsent, write_loop, after_write, write_to_client,
}

abbrev HasEnded : Sent × Client × Bytes → Type 0
HasEnded (stopped, client, wire) = Unit {0}
HasEnded (failed, client, wire) = Unit {0}
HasEnded (waiting, client, wire) = ⊥

if-HasEnded :
    (b : Bool) (s t : Sent × Client × Bytes)
    → HasEnded s
    → HasEnded t
    → HasEnded (if b then s else t)
if-HasEnded true s t hs ht = hs
if-HasEnded false s t hs ht = ht

write_loop-HasEnded :
    (answers : List SendAnswer) (client : Client) (wire : Bytes)
    → HasEnded (write_loop (answers ++ send_would_block ∷ []) client wire)
unfolding write_loop
write_loop-HasEnded [] client wire = tt
write_loop-HasEnded (sent n ∷ answers) client wire =
    let taken = take n (unsent client) in
    if-HasEnded (pending_output client == 0) _ _ tt (
      if-HasEnded (n == 0) _ _ tt (
        write_loop-HasEnded answers
          (record client { output_offset = client.output_offset + length taken }) (wire ++ taken)))
write_loop-HasEnded (send_interrupted ∷ answers) client wire =
    if-HasEnded (pending_output client == 0) _ _ tt (write_loop-HasEnded answers client wire)
write_loop-HasEnded (send_would_block ∷ answers) client wire = tt
write_loop-HasEnded (send_failed ∷ answers) client wire =
    if-HasEnded (pending_output client == 0) (stopped, client, wire) (failed, client, wire) tt tt

after_write-ne-none : (r : Sent × Client × Bytes) → HasEnded r → (after_write r).0 ≢ none
after_write-ne-none (stopped, client, wire) h e = ground (arith, e)
after_write-ne-none (failed, client, wire) h e = ground (arith, e)
after_write-ne-none (waiting, client, wire) h e = h

pub write_to_client-ne-none :
    (answers : List SendAnswer) (client : Client) (wire : Bytes)
    → (write_to_client (answers ++ send_would_block ∷ []) client wire).0 ≢ none
unfolding write_to_client
write_to_client-ne-none answers client wire =
    after_write-ne-none _ (write_loop-HasEnded answers client wire)
