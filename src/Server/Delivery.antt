-- ===== src/Server/Delivery.antt =====
-- src/tcp_server.cpp: `writeToClient` sends the output, in order.
use flash_kv.Common.{
  ℕ, zero, suc, ◌+◌, ◌-◌, ◌≤◌, ◌/◌, ◌≡◌, refl, sym, ap, ◌∙◌, arith, List, [], ◌∷◌, ◌++◌, Bytes, ltb,
  ◌==◌, length, take, drop, append_assoc, Bool-cases, inl, inr,
}
use flash_kv.Aof.Durable.{take-drop}
use flash_kv.Server.Client.{
  Client, pending_output, SendAnswer, sent, send_interrupted, send_would_block, send_failed, Sent,
  stopped, failed, waiting, unsent, write_loop, compact, after_write, write_to_client,
}

drop-nil : (n : ℕ) → drop {A = ℕ} n [] ≡ []
drop-nil zero = refl
drop-nil (suc n) = refl

drop-drop : (m n : ℕ) (s : Bytes) → drop (m + n) s ≡ drop n (drop m s)
drop-drop zero n s = let e : 0 + n ≡ n = omega arith in rw e refl
drop-drop (suc m) n [] = drop-nil (suc m + n) ∙ sym (drop-nil n)
drop-drop (suc m) n (c ∷ s) =
    let e : suc m + n ≡ suc (m + n) = omega arith in rw e (drop-drop m n s)

drop-all : (s : Bytes) → drop (length s) s ≡ []
drop-all [] = refl
drop-all (c ∷ s) = drop-all s

drop-length-take : (n : ℕ) (s : Bytes) → drop (length (take n s)) s ≡ drop n s
drop-length-take zero s = refl
drop-length-take (suc n) [] = refl
drop-length-take (suc n) (c ∷ s) = drop-length-take n s

length-take-le : (n : ℕ) (s : Bytes) → length (take n s) ≤ length s
length-take-le zero s = omega arith
length-take-le (suc n) [] = omega arith
length-take-le (suc n) (c ∷ s) = omega (arith, length-take-le n s)

length-drop-eq : (n : ℕ) (s : Bytes) → length (drop n s) ≡ length s - n
length-drop-eq zero s = omega arith
length-drop-eq (suc n) [] = omega arith
length-drop-eq (suc n) (c ∷ s) = omega (arith, length-drop-eq n s)

-- The offset stands inside the output.
abbrev pub IsInside : Client → Type 0
IsInside client = client.output_offset ≤ length client.output

-- What was sent and what is left, and the offset.
abbrev IsDelivered : Bytes → Sent × Client × Bytes → Type 0
IsDelivered all (_, client, wire) = (wire ++ unsent client ≡ all) × IsInside client

write_loop-IsDelivered :
    (answers : List SendAnswer) (client : Client) (wire : Bytes)
    → IsInside client
    → IsDelivered (wire ++ unsent client) (write_loop answers client wire)
unfolding write_loop
write_loop-IsDelivered [] client wire inside = elim (Bool-cases (pending_output client == 0)) [
  | inl done ↦ rw done (refl, inside)
  | inr more ↦ rw more (refl, inside)
]
write_loop-IsDelivered (sent n ∷ answers) client wire inside =
    elim (Bool-cases (pending_output client == 0)) [
      | inl done ↦ rw done (refl, inside)
      | inr more ↦ rw more (elim (Bool-cases (n == 0)) [
        | inl nothing ↦ rw nothing (refl, inside)
        | inr some_ ↦
            let taken = take n (unsent client) in
            let further = record client { output_offset = client.output_offset + length taken } in
            let (e, h) = write_loop-IsDelivered answers further (wire ++ taken) (
              omega (
                arith,
                inside,
                length-take-le n (unsent client),
                length-drop-eq client.output_offset client.output,
              )) in
            rw some_ (
              e
                  ∙ ap (λ t. (wire ++ taken) ++ t)
                      (drop-drop client.output_offset (length taken) client.output
                        ∙ drop-length-take n (unsent client))
                  ∙ append_assoc wire taken (drop n (unsent client))
                  ∙ ap (λ t. wire ++ t) (take-drop n (unsent client)),
              h,
            )
      ])
    ]
write_loop-IsDelivered (send_interrupted ∷ answers) client wire inside =
    elim (Bool-cases (pending_output client == 0)) [
      | inl done ↦ rw done (refl, inside)
      | inr more ↦ rw more (write_loop-IsDelivered answers client wire inside)
    ]
write_loop-IsDelivered (send_would_block ∷ answers) client wire inside = (refl, inside)
write_loop-IsDelivered (send_failed ∷ answers) client wire inside =
    elim (Bool-cases (pending_output client == 0)) [
      | inl done ↦ rw done (refl, inside)
      | inr more ↦ rw more (refl, inside)
    ]

compact-unsent :
    (client : Client)
    → IsInside client
    → (unsent (compact client) ≡ unsent client) × IsInside (compact client)
unfolding compact
compact-unsent client inside = elim (Bool-cases (client.output_offset == length client.output)) [
  | inl end_ ↦
      let at_end : client.output_offset ≡ length client.output = ground arith in
      rw end_ (sym (rw at_end (drop-all client.output)), omega arith)
  | inr before ↦
      rw before (elim (Bool-cases (ltb (length client.output / 2) client.output_offset)) [
        | inl most ↦ rw most (refl, omega arith)
        | inr half ↦ rw half (refl, inside)
      ])
]

after_write-IsDelivered :
    (all : Bytes) (r : Sent × Client × Bytes)
    → IsDelivered all r
    → ((after_write r).2 ++ unsent (after_write r).1 ≡ all) × IsInside (after_write r).1
after_write-IsDelivered all (stopped, client, wire) (e, inside) =
    let (same, h) = compact-unsent client inside in (rw same e, h)
after_write-IsDelivered all (failed, client, wire) h = h
after_write-IsDelivered all (waiting, client, wire) h = h

-- With the offset inside the output, whatever `send` answers, the bytes the peer was sent followed
-- by the bytes still to send are behind `writeToClient` what they were before, and the offset is
-- inside the output again: no byte of a reply is lost, doubled or moved.
pub write_to_client-unsent :
    (answers : List SendAnswer) (client : Client) (wire : Bytes)
    → client.output_offset ≤ length client.output
    → ((write_to_client answers client wire).2 ++ unsent (write_to_client answers client wire).1
        ≡ wire ++ unsent client)
      × ((write_to_client answers client wire).1.output_offset
          ≤ length (write_to_client answers client wire).1.output)
unfolding write_to_client
write_to_client-unsent answers client wire inside =
    after_write-IsDelivered _ (write_loop answers client wire)
      (write_loop-IsDelivered answers client wire inside)
