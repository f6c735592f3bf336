-- ===== src/Database/Typed.antt =====
-- `valueAs`, and the node that an operation finds or creates.
use flash_kv.Common.{◌≡◌, refl, Option, none, some, List, arith, Bytes, Assoc, lookup, ===_refl}
use flash_kv.Common.Exec.{Outcome, throw, wrong_type, pure, ◌>>=◌}
use flash_kv.Database.State.{
  Db, Database, Entry, Value, string, list, hash, members, as_string, as_list, as_hash, as_set,
  find_live, create, create_node, new_entry, erase, touch,
}
use flash_kv.Database.Invariant.{IsWellFormed, IsProper}
use flash_kv.Database.Invariant.Nodes.{touch-IsWellFormed, create-IsWellFormed, erase-IsWellFormed}
use flash_kv.Database.Invariant.Values.{Holds}
use flash_kv.Database.Live.{live_induction}

module _ {A : Type 0} (P : Outcome A × Database → Type 0) (e : Entry) (db : Database)
    (wrong : P (throw wrong_type, db)) where
  pub string_cases :
      (f : Bytes → Db A)
      → ((text : Bytes) → e.value ≡ string text → P (f text db))
      → P ((as_string e >>= f) db)
  unfolding as_string
  string_cases f right = go e.value refl
    where
      go : (v : Value) → e.value ≡ v → P ((as_string e >>= f) db)
      go (string text) eq = rw (eq, as_string) (right text eq)
      go (list _) eq = rw (eq, as_string) wrong
      go (hash _) eq = rw (eq, as_string) wrong
      go (members _) eq = rw (eq, as_string) wrong

  pub list_cases :
      (f : List Bytes → Db A)
      → ((l : List Bytes) → e.value ≡ list l → P (f l db))
      → P ((as_list e >>= f) db)
  unfolding as_list
  list_cases f right = go e.value refl
    where
      go : (v : Value) → e.value ≡ v → P ((as_list e >>= f) db)
      go (list l) eq = rw (eq, as_list) (right l eq)
      go (string _) eq = rw (eq, as_list) wrong
      go (hash _) eq = rw (eq, as_list) wrong
      go (members _) eq = rw (eq, as_list) wrong

  pub hash_cases :
      (f : Assoc Bytes → Db A)
      → ((h : Assoc Bytes) → e.value ≡ hash h → P (f h db))
      → P ((as_hash e >>= f) db)
  unfolding as_hash
  hash_cases f right = go e.value refl
    where
      go : (v : Value) → e.value ≡ v → P ((as_hash e >>= f) db)
      go (hash h) eq = rw (eq, as_hash) (right h eq)
      go (string _) eq = rw (eq, as_hash) wrong
      go (list _) eq = rw (eq, as_hash) wrong
      go (members _) eq = rw (eq, as_hash) wrong

  pub set_cases :
      (f : List Bytes → Db A)
      → ((s : List Bytes) → e.value ≡ members s → P (f s db))
      → P ((as_set e >>= f) db)
  unfolding as_set
  set_cases f right = go e.value refl
    where
      go : (v : Value) → e.value ≡ v → P ((as_set e >>= f) db)
      go (members s) eq = rw (eq, as_set) (right s eq)
      go (string _) eq = rw (eq, as_set) wrong
      go (list _) eq = rw (eq, as_set) wrong
      go (hash _) eq = rw (eq, as_set) wrong

abbrev pub Sound : {A : Type 0} → Outcome A × Database → Type 0
Sound (r, db) = IsWellFormed db

module _ (k : Bytes) {v : Value} {db : Database} (h : Holds k v db) where
  pub touch_held : IsWellFormed (touch k db)
  touch_held = touch-IsWellFormed k db h.found h.well_formed

  pub erase_held : IsWellFormed (erase k db)
  erase_held = erase-IsWellFormed k db {e = h.entry} h.found h.well_formed

pub create-Holds :
    (k : Bytes) (v : Value) (db : Database)
    → lookup k db.entries ≡ none
    → IsProper v
    → IsWellFormed db
    → Holds k v (create k v db)
unfolding create lookup
create-Holds k v db missing new w = record {
  well_formed = create-IsWellFormed k v db missing new w;
  entry = new_entry k v;
  found = rw missing (unfold lookup in ground (arith, ===_refl k));
  value = unfold new_entry in refl;
}

module _ {A : Type 0} (k : Bytes) (db : Database) (w : IsWellFormed db) where
  -- An operation that answers for a missing key, and goes on with the node of another.
  pub found_induction :
      (P : Outcome A × Database → Type 0) (body : Option Entry → Db A)
      → ((db' : Database) → IsWellFormed db' → P (body none db'))
      → ((e : Entry) (db' : Database) → Holds k e.value db' → P (body (some e) db'))
      → P ((find_live k >>= body) db)
  found_induction P body missing found =
      live_induction k db body P w (λ db' w' _. missing db' w')
        λ e db' w' here.
          found e db' (record { well_formed = w'; entry = e; found = here; value = refl })

  -- An operation that creates the node of a missing key, and goes on with the node.
  pub acquired_induction :
      (P : Outcome A × Database → Type 0) (v : Value) (rest : Entry → Db A)
      → IsProper v
      → ((e : Entry) (db' : Database) → Holds k e.value db' → P (rest e db'))
      → P (
          (find_live k >>= λ node. elim node [ none ↦ create_node k v | some e ↦ pure e ] >>= rest)
            db)
  unfolding new_entry
  acquired_induction P v rest new held =
      live_induction k db _ P w
        (λ db' w' missing.
          rw missing (held (new_entry k v) (create k v db') (create-Holds k v db' missing new w')))
        λ e db' w' here.
          held e db' (record { well_formed = w'; entry = e; found = here; value = refl })
