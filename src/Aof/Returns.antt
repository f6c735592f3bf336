-- ===== src/Aof/Returns.antt =====
-- src/aof.cpp: `flush` returns once `write` has failed.
use flash_kv.Common.{
  zero, suc, ◌≢◌, arith, Bool, true, false, none, List, [], ◌∷◌, ◌++◌, Bytes, take, drop,
}
use flash_kv.Aof.Flush.{
  AppendOnlyFile, Answer, wrote, interrupted, failed, Written, all_written, broken, blocked,
  flushed, write_loop, flush_bytes, flush,
}

-- The loop has come to an end.
abbrev HasEnded : Written → Type 0
HasEnded (all_written contents) = Unit {0}
HasEnded (broken left contents) = Unit {0}
HasEnded (blocked left contents) = ⊥

write_loop-HasEnded :
    (answers : List Answer) (left contents : Bytes)
    → HasEnded (write_loop (answers ++ failed ∷ []) left contents)
unfolding write_loop
write_loop-HasEnded [] [] contents = tt
write_loop-HasEnded [] (c ∷ left) contents = tt
write_loop-HasEnded (a ∷ answers) [] contents = tt
write_loop-HasEnded (interrupted ∷ answers) (c ∷ left) contents =
    write_loop-HasEnded answers (c ∷ left) contents
write_loop-HasEnded (failed ∷ answers) (c ∷ left) contents = tt
write_loop-HasEnded (wrote zero ∷ answers) (c ∷ left) contents = tt
write_loop-HasEnded (wrote (suc n) ∷ answers) (c ∷ left) contents =
    write_loop-HasEnded answers (drop (suc n) (c ∷ left)) (contents ++ take (suc n) (c ∷ left))

flushed-ne-none : (file : AppendOnlyFile) (w : Written) → HasEnded w → (flushed file w).0 ≢ none
flushed-ne-none file (all_written contents) h e = ground (arith, e)
flushed-ne-none file (broken left contents) h e = ground (arith, e)
flushed-ne-none file (blocked left contents) h e = h

flush_bytes-ne-none :
    (answers : List Answer) (is_open : Bool) (left : Bytes) (file : AppendOnlyFile)
    → (flush_bytes (answers ++ failed ∷ []) is_open left file).0 ≢ none
unfolding flush_bytes
flush_bytes-ne-none answers is_open [] file e = ground (arith, e)
flush_bytes-ne-none answers false (c ∷ left) file e = ground (arith, e)
flush_bytes-ne-none answers true (c ∷ left) file e =
    flushed-ne-none file (write_loop (answers ++ failed ∷ []) (c ∷ left) file.contents)
      (write_loop-HasEnded answers (c ∷ left) file.contents) e

pub flush-ne-none :
    (answers : List Answer) (file : AppendOnlyFile) → (flush (answers ++ failed ∷ []) file).0 ≢ none
unfolding flush
flush-ne-none answers file = flush_bytes-ne-none answers file.is_open file.buffer file
