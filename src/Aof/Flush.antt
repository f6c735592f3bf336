-- ===== src/Aof/Flush.antt =====
-- src/aof.cpp, `append`, `flush`, `sync` and `healthy`, with the bytes of the file beside the object.
use flash_kv.Common.{
  ℕ, zero, suc, Bool, true, false, not, Option, none, some, List, [], ◌∷◌, ◌++◌, Bytes, take, drop,
  ◌&&◌, if◌then◌else◌,
}
use flash_kv.Resp.Encode.{resp_array}

pub record AppendOnlyFile : Type 0 where
  pub buffer : Bytes
  pub is_open : Bool
  pub needs_sync : Bool
  pub write_failed : Bool
  pub contents : Bytes

-- What `write` answers: a count of bytes, EINTR, or another failure (an answer of 0 counts as one).
pub data Answer : Type 0 where
  wrote : ℕ → Answer
  interrupted failed : Answer

unfoldable pub append : List Bytes → AppendOnlyFile → AppendOnlyFile
append arguments aof = record aof { buffer = aof.buffer ++ resp_array arguments }

-- How the loop of `flush` ends: with all written, or with the bytes it has not written; `blocked`
-- when `write` has no answer yet.
pub data Written : Type 0 where
  all_written : Bytes → Written
  broken : Bytes → Bytes → Written
  blocked : Bytes → Bytes → Written

-- The loop of `flush`: the answers of `write`, the bytes left, the bytes of the file.
unfoldable pub write_loop : List Answer → Bytes → Bytes → Written
write_loop answers [] contents = all_written contents
write_loop [] (c ∷ left) contents = blocked (c ∷ left) contents
write_loop (interrupted ∷ answers) (c ∷ left) contents = write_loop answers (c ∷ left) contents
write_loop (failed ∷ answers) (c ∷ left) contents = broken (c ∷ left) contents
write_loop (wrote zero ∷ answers) (c ∷ left) contents = broken (c ∷ left) contents
write_loop (wrote (suc n) ∷ answers) (c ∷ left) contents =
    write_loop answers (drop (suc n) (c ∷ left)) (contents ++ take (suc n) (c ∷ left))

abbrev pub flushed : AppendOnlyFile → Written → Option Bool × AppendOnlyFile
flushed aof (all_written contents) = (
  some true,
  record aof { buffer = []; needs_sync = true; write_failed = false; contents = contents },
)
flushed aof (broken left contents) =
    (some false, record aof { buffer = left; write_failed = true; contents = contents })
flushed aof (blocked left contents) = (none, record aof { buffer = left; contents = contents })

unfoldable pub flush_bytes :
    List Answer → Bool → Bytes → AppendOnlyFile → Option Bool × AppendOnlyFile
unfolding write_loop
flush_bytes answers is_open [] aof = (some (not aof.write_failed), aof)
flush_bytes answers false (c ∷ left) aof = (some false, aof)
flush_bytes answers true (c ∷ left) aof = flushed aof (write_loop answers (c ∷ left) aof.contents)

-- The result is `none` while `write` blocks.
unfoldable pub flush : List Answer → AppendOnlyFile → Option Bool × AppendOnlyFile
unfolding flush_bytes
flush answers aof = flush_bytes answers aof.is_open aof.buffer aof

-- `sync`, with the answer of `fsync`.
unfoldable pub sync : Bool → AppendOnlyFile → Bool × AppendOnlyFile
sync answer aof =
    if aof.needs_sync && aof.is_open
    then (answer, record aof { needs_sync = false })
    else (true, aof)

abbrev pub healthy : AppendOnlyFile → Bool
healthy aof = not aof.write_failed

-- `open`, with the answer of the system call.
abbrev pub open_file : Bool → AppendOnlyFile → Bool × AppendOnlyFile
open_file answer aof = (answer, record aof { is_open = answer })

-- The object that the constructor makes, at a file with these bytes.
abbrev pub new_file : Bytes → AppendOnlyFile
new_file contents = record {
  buffer = [];
  is_open = false;
  needs_sync = false;
  write_failed = false;
  contents = contents;
}

abbrev closed : Option Bool × AppendOnlyFile → Bool → Option AppendOnlyFile
closed (none, aof) answer = none
closed (some result, aof) answer = some (record (sync answer aof).1 { is_open = false })

-- The destructor, with the answers of `write` and `fsync`; `none` while `write` blocks.
unfoldable pub destroy : List Answer → Bool → AppendOnlyFile → Option AppendOnlyFile
unfolding flush sync
destroy answers answer aof = closed (flush answers aof) answer
