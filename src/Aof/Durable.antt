-- ===== src/Aof/Durable.antt =====
-- src/aof.cpp: no byte of an appended command is lost, doubled or moved by `flush`.
use flash_kv.Common.{
  ℕ, zero, suc, ◌≡◌, refl, sym, ap, ◌∙◌, Bool, true, false, List, [], ◌∷◌, ◌++◌, Bytes, take, drop,
  append_assoc, append-nil,
}
use flash_kv.Aof.Flush.{
  AppendOnlyFile, Answer, Written, wrote, interrupted, failed, all_written, broken, blocked,
  write_loop, flushed, flush_bytes, flush,
}

-- What the file holds, and then what waits in the buffer.
abbrev pub pending : AppendOnlyFile → Bytes
pending aof = aof.contents ++ aof.buffer

pub take-drop : (n : ℕ) (s : Bytes) → take n s ++ drop n s ≡ s
take-drop zero s = refl
take-drop (suc n) [] = refl
take-drop (suc n) (c ∷ s) = ap (λ t. c ∷ t) (take-drop n s)

abbrev pub bytes_of : Written → Bytes
bytes_of (all_written contents) = contents
bytes_of (broken left contents) = contents ++ left
bytes_of (blocked left contents) = contents ++ left

write_loop-bytes :
    (answers : List Answer) (left contents : Bytes)
    → bytes_of (write_loop answers left contents) ≡ contents ++ left
unfolding write_loop
write_loop-bytes answers [] contents = sym (append-nil contents)
write_loop-bytes [] (c ∷ left) contents = refl
write_loop-bytes (interrupted ∷ answers) (c ∷ left) contents =
    write_loop-bytes answers (c ∷ left) contents
write_loop-bytes (failed ∷ answers) (c ∷ left) contents = refl
write_loop-bytes (wrote zero ∷ answers) (c ∷ left) contents = refl
write_loop-bytes (wrote (suc n) ∷ answers) (c ∷ left) contents =
    write_loop-bytes answers (drop n left) (contents ++ c ∷ take n left)
    ∙ append_assoc contents (c ∷ take n left) (drop n left)
    ∙ ap (λ t. contents ++ c ∷ t) (take-drop n left)

flushed-bytes : (aof : AppendOnlyFile) (w : Written) → pending (flushed aof w).1 ≡ bytes_of w
flushed-bytes aof (all_written contents) = append-nil contents
flushed-bytes aof (broken left contents) = refl
flushed-bytes aof (blocked left contents) = refl

flush_bytes-pending :
    (answers : List Answer) (is_open : Bool) (left : Bytes) (aof : AppendOnlyFile)
    → aof.buffer ≡ left
    → pending (flush_bytes answers is_open left aof).1 ≡ pending aof
unfolding flush_bytes
flush_bytes-pending answers is_open [] aof e = refl
flush_bytes-pending answers false (c ∷ left) aof e = refl
flush_bytes-pending answers true (c ∷ left) aof e =
    flushed-bytes aof (write_loop answers (c ∷ left) aof.contents)
    ∙ write_loop-bytes answers (c ∷ left) aof.contents
    ∙ ap (λ t. aof.contents ++ t) (sym e)

-- A flush, however `write` answers it and however far it comes, keeps the bytes of the file
-- followed by those of the buffer: none is lost, doubled or moved.
pub flush-pending :
    (answers : List Answer) (aof : AppendOnlyFile) → pending (flush answers aof).1 ≡ pending aof
unfolding flush
flush-pending answers aof = flush_bytes-pending answers aof.is_open aof.buffer aof refl
