-- ===== src/Database/Keyspace.antt =====
-- src/database.cpp, the whole keyspace: KEYS, sizes, FLUSHALL, the recency order.
use flash_kv.Common.{ℕ, Bool, not, ◌&&◌, List, [], ◌∷◌, Bytes, if◌then◌else◌, length, Assoc}
use flash_kv.Common.Int.{ℤ, leb_ℤ, eqb_ℤ}
use flash_kv.Common.Exec.{ok}
use flash_kv.Database.State.{Db, Database, Entry, no_expiry, now}
use flash_kv.Database.Hashes.{sort}
use flash_kv.Database.Glob.{glob_match}

-- Expired at the time `current`.
abbrev pub is_expired : ℤ → Entry → Bool
is_expired current e = not (eqb_ℤ e.expires_at_ms no_expiry) && leb_ℤ e.expires_at_ms current

unfoldable pub matching : Bytes → ℤ → Assoc Entry → List Bytes
matching pattern current [] = []
matching pattern current ((key, e) ∷ entries) =
    let rest = matching pattern current entries in
    if not (is_expired current e) && glob_match pattern key then key ∷ rest else rest

unfoldable pub keys : Bytes → Db (List Bytes)
unfolding now matching sort
keys pattern db =
    let (current, read) = now db in (ok (sort (matching pattern current db.entries)), read)

unfoldable pub size : Database → ℕ
size db = length db.entries

unfoldable pub volatile_key_count : Database → ℕ
volatile_key_count db = length db.volatile_keys

unfoldable pub clear : Database → Database
clear db = record db { entries = []; lru = []; volatile_keys = []; memory_used = 0 }

unfoldable pub keys_by_recency : Database → List Bytes
keys_by_recency db = db.lru
