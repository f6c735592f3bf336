-- ===== src/Database/Refine.antt =====
-- The abstract view of `Database`: a map from keys to values with deadlines. Each operation on a
-- key is given by a function of what an access finds there, to its result and what it leaves.
pub mod Primitives
pub mod Ends
pub mod Sorting
pub mod Numerals
pub mod Strings
pub mod Lists
pub mod Hashes
pub mod Sets
use flash_kv.Common.{
  ℕ, ◌+◌, ◌≡◌, refl, sym, ap, ◌∙◌, Bool, true, false, Option, none, some, List, [], ◌∷◌, arith,
  Bytes, ◌===◌, ===_refl, ===_iff, if◌then◌else◌, inl, inr, Bool-cases, Assoc, lookup, modify,
  lookup-modify, Option-cases,
}
use flash_kv.Common.Int.{ℤ, eqb_ℤ, leb_ℤ}
use flash_kv.Common.Exec.{Outcome, ok, throw, ◌>>=◌, wrong_type}
use flash_kv.Database.State.{
  Db, Database, Entry, Value, find_live, edit, add_memory, remove_memory, store_value, touch,
  set_expiry, enter_sample, slot, erase, create, no_expiry, string, list, hash, members,
}
use flash_kv.Database.Live.{
  content, content_of, content-erase, content-create, live_cases, settle, purged, read_at,
  lookup-erase_self,
}

abbrev pub Cell : Type 0
Cell = Option (Value × ℤ)

-- From `db` to `db'` the view of `k` becomes `c`, and that of every other key stays.
pub record Writes (k : Bytes) (db : Database) (c : Cell) (db' : Database) : Type 0 where
  pub here : content k db' ≡ c
  pub elsewhere : (j : Bytes) → (k === j) ≡ false → content j db' ≡ content j db

-- The result and the state `r` of an operation on `k` are as `s` says.
pub record Refines {A : Type 0} (k : Bytes) (db : Database) (s : Outcome A × Cell)
    (r : Outcome A × Database) : Type 0 where
  pub result : r.0 ≡ s.0
  pub writes : Writes k db s.1 r.1

-- The time of the first clock reading of an operation.
abbrev pub time : Database → ℤ
time db = db.clock db.clock_reads

module _ {k : Bytes} where
  pub Writes-nothing : {db : Database} {c : Cell} → content k db ≡ c → Writes k db c db
  Writes-nothing h = record { here = h; elsewhere = λ j _. refl }

  pub Writes-then :
      {a b d : Database} {c c' : Cell} → Writes k a c b → Writes k b c' d → Writes k a c' d
  Writes-then f g = record {
    here = g.here;
    elsewhere = λ j other. g.elsewhere j other ∙ f.elsewhere j other;
  }

  -- An operation that goes on from a later state.
  pub Refines-then :
      {A : Type 0} {a b : Database} {c : Cell} {s : Outcome A × Cell} {r : Outcome A × Database}
      → Writes k a c b
      → Refines k b s r
      → Refines k a s r
  Refines-then f g = record { result = g.result; writes = Writes-then f g.writes }

  pub Refines-nothing :
      {A : Type 0} {db : Database} {c : Cell} {o : Outcome A}
      → content k db ≡ c
      → Refines k db (o, c) (o, db)
  Refines-nothing h = record { result = refl; writes = Writes-nothing h }

  -- A state that differs in what the view does not show.
  pub Refines-same :
      {A : Type 0} {a b : Database} {c : Cell} {o : Outcome A}
      → ((j : Bytes) → content j b ≡ content j a)
      → content k a ≡ c
      → Refines k a (o, c) (o, b)
  Refines-same same h = record {
    result = refl;
    writes = record { here = same k ∙ h; elsewhere = λ j _. same j };
  }

pub create-Writes :
    (k : Bytes) (v : Value) (db : Database)
    → lookup k db.entries ≡ none
    → Writes k db (some (v, no_expiry)) (create k v db)
create-Writes k v db missing = record {
  here = ground (arith, content-create k k v db missing, ===_refl k);
  elsewhere = λ j other. ground (arith, content-create k j v db missing);
}

pub erase-Writes : (k : Bytes) (db : Database) → Writes k db none (erase k db)
erase-Writes k db = record {
  here = ground (arith, content-erase k k db, ===_refl k);
  elsewhere = λ j other. ground (arith, content-erase k j db);
}

module _ {A : Type 0} (k : Bytes) (spec : Cell → Outcome A × Cell)
    (body : Option Entry → Db A) where
  -- It is enough to look at a state in which the key is missing, and at one in which it is live.
  pub refine_live :
      ((db : Database) → lookup k db.entries ≡ none → Refines k db (spec none) (body none db))
      → ((e : Entry) (db : Database)
          → lookup k db.entries ≡ some e
          → Refines k db (spec (some (e.value, e.expires_at_ms))) (body (some e) db))
      → (db : Database)
      → Refines k db (spec (settle (time db) (content k db))) ((find_live k >>= body) db)
  refine_live missing found db =
      live_cases k db body (Refines k db (spec (settle (time db) (content k db))))
        (λ e. rw e (missing db e))
        (λ e at_k timed late.
          let before = read_at (db.clock_reads + 1) db in
          let gone = erase-Writes k before in
          let h = missing (purged k (db.clock_reads + 1) db) (lookup-erase_self k before) in
          rw (at_k, timed, late)
            (record {
              result = h.result;
              writes = record {
                here = h.writes.here;
                elsewhere = λ j other. h.writes.elsewhere j other ∙ gone.elsewhere j other;
              };
            }))
        (λ e n at_k kept.
          let h = found e (read_at n db) at_k in
          rw (at_k, kept)
            (record {
              result = h.result;
              writes = record { here = h.writes.here; elsewhere = h.writes.elsewhere };
            }))
