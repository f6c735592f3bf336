-- ===== src/Database/Refine/Primitives.antt =====
-- The view behind the helpers of `Database`, and behind `valueAs`.
use flash_kv.Common.{
  ℕ, ◌≡◌, refl, ap, ◌∙◌, Option, none, some, List, arith, Bytes, ◌===◌, ===_refl, if◌then◌else◌,
  Assoc, lookup-modify, length, add64, sub64,
}
use flash_kv.Common.Int.{ℤ}
use flash_kv.Common.Exec.{Outcome, throw, wrong_type, pure, ◌>>=◌}
use flash_kv.Database.State.{
  Db, Database, Entry, Value, string, list, hash, members, add_memory, remove_memory, store_value,
  touch, set_expiry, clear_expiry, enter_sample, slot, as_string, as_list, as_hash, as_set, create,
  create_node, new_entry, no_expiry, find_live,
}
use flash_kv.Database.Live.{content, content_of, content-clear_expiry, settle}
use flash_kv.Database.Refine.{
  Cell, Writes, Refines, Refines-then, Refines-nothing, refine_live, create-Writes, time,
}

module _ (k j : Bytes) (db : Database) where
  pub content-add_memory : (n : ℕ) → content j (add_memory k n db) ≡ content j db
  unfolding add_memory
  content-add_memory n =
      ground (arith, lookup-modify k j (λ e. record e { memory = add64 e.memory n }) db.entries)

  pub content-remove_memory : (n : ℕ) → content j (remove_memory k n db) ≡ content j db
  unfolding remove_memory
  content-remove_memory n =
      ground (arith, lookup-modify k j (λ e. record e { memory = sub64 e.memory n }) db.entries)

  abbrev revalued : Value → Cell → Cell
  revalued v none = none
  revalued v (some (_, t)) = some (v, t)

  pub content-store_value :
      (v : Value)
      → content j (store_value k v db)
        ≡ (if k === j then revalued v (content j db) else content j db)
  unfolding store_value
  content-store_value v = ground (arith, lookup-modify k j (λ e. record e { value = v }) db.entries)

content-enter_sample :
    (k j : Bytes) (o : Option ℕ) (db : Database) → content j (enter_sample k o db) ≡ content j db
content-enter_sample k j none db = ground (
  arith,
  lookup-modify k j (λ e. record e { volatile_index = some (length db.volatile_keys) }) db.entries,
)
content-enter_sample k j (some i) db = refl

abbrev redated : ℤ → Cell → Cell
redated d none = none
redated d (some (v, _)) = some (v, d)

content-set_expiry :
    (k j : Bytes) (d : ℤ) (db : Database)
    → content j (set_expiry k d db) ≡ (if k === j then redated d (content j db) else content j db)
unfolding set_expiry
content-set_expiry k j d db =
    let entered = enter_sample k (slot k db.entries) db in
    ground (
      arith,
      lookup-modify k j (λ e. record e { expires_at_ms = d }) entered.entries,
      content-enter_sample k j (slot k db.entries) db,
    )

module _ (k : Bytes) {u : Value} {t : ℤ} {db : Database} (h : content k db ≡ some (u, t)) where
  pub store_value-Writes : (v : Value) → Writes k db (some (v, t)) (store_value k v db)
  store_value-Writes v = record {
    here = ground (arith, content-store_value k k db v, ===_refl k);
    elsewhere = λ j other. ground (arith, content-store_value k j db v);
  }

  pub add_memory-Writes : (n : ℕ) → Writes k db (some (u, t)) (add_memory k n db)
  add_memory-Writes n = record {
    here = content-add_memory k k db n ∙ h;
    elsewhere = λ j _. content-add_memory k j db n;
  }

  pub remove_memory-Writes : (n : ℕ) → Writes k db (some (u, t)) (remove_memory k n db)
  remove_memory-Writes n = record {
    here = content-remove_memory k k db n ∙ h;
    elsewhere = λ j _. content-remove_memory k j db n;
  }

  pub set_expiry-Writes : (d : ℤ) → Writes k db (some (u, d)) (set_expiry k d db)
  set_expiry-Writes d = record {
    here = ground (arith, content-set_expiry k k d db, ===_refl k);
    elsewhere = λ j other. ground (arith, content-set_expiry k j d db);
  }

  pub clear_expiry-Writes : Writes k db (some (u, no_expiry)) (clear_expiry k db)
  clear_expiry-Writes = record {
    here = ground (arith, content-clear_expiry k k db, ===_refl k);
    elsewhere = λ j other. ground (arith, content-clear_expiry k j db);
  }

-- The recency list does not show in the view.
pub touch-Writes :
    {k : Bytes} {c : Cell} {db db' : Database} → Writes k db c db' → Writes k db c (touch k db')
unfolding touch
touch-Writes h = record { here = h.here; elsewhere = h.elsewhere }

-- What an operation on one type does: with no value, with a value of the type, or WRONGTYPE.
module _ {A : Type 0} (missing : Outcome A × Cell) where
  abbrev pub on_string : (Bytes → ℤ → Outcome A × Cell) → Cell → Outcome A × Cell
  on_string f none = missing
  on_string f (some (string text, t)) = f text t
  on_string f (some (list l, t)) = (throw wrong_type, some (list l, t))
  on_string f (some (hash h, t)) = (throw wrong_type, some (hash h, t))
  on_string f (some (members s, t)) = (throw wrong_type, some (members s, t))

  abbrev pub on_list : (List Bytes → ℤ → Outcome A × Cell) → Cell → Outcome A × Cell
  on_list f none = missing
  on_list f (some (list l, t)) = f l t
  on_list f (some (string x, t)) = (throw wrong_type, some (string x, t))
  on_list f (some (hash h, t)) = (throw wrong_type, some (hash h, t))
  on_list f (some (members s, t)) = (throw wrong_type, some (members s, t))

  abbrev pub on_hash : (Assoc Bytes → ℤ → Outcome A × Cell) → Cell → Outcome A × Cell
  on_hash f none = missing
  on_hash f (some (hash h, t)) = f h t
  on_hash f (some (string x, t)) = (throw wrong_type, some (string x, t))
  on_hash f (some (list l, t)) = (throw wrong_type, some (list l, t))
  on_hash f (some (members s, t)) = (throw wrong_type, some (members s, t))

  abbrev pub on_set : (List Bytes → ℤ → Outcome A × Cell) → Cell → Outcome A × Cell
  on_set f none = missing
  on_set f (some (members s, t)) = f s t
  on_set f (some (string x, t)) = (throw wrong_type, some (string x, t))
  on_set f (some (list l, t)) = (throw wrong_type, some (list l, t))
  on_set f (some (hash h, t)) = (throw wrong_type, some (hash h, t))

-- The type test of an operation, at a node that is there.
module _ {A : Type 0} (k : Bytes) (missing : Outcome A × Cell) where
  pub refine_string :
      (f : Bytes → ℤ → Outcome A × Cell) (body : Bytes → Db A)
      → ((text : Bytes) (t : ℤ) (db : Database)
          → content k db ≡ some (string text, t)
          → Refines k db (f text t) (body text db))
      → (e : Entry) (db : Database) → content k db ≡ some (e.value, e.expires_at_ms)
      → Refines k db
          (on_string missing f (some (e.value, e.expires_at_ms)))
          ((as_string e >>= body) db)
  unfolding as_string
  refine_string f body right e db = go e.value refl
    where
      go :
          (v : Value)
          → e.value ≡ v
          → content k db ≡ some (e.value, e.expires_at_ms)
          → Refines k db
              (on_string missing f (some (e.value, e.expires_at_ms)))
              ((as_string e >>= body) db)
      go (string text) eq h = rw (eq, as_string) (right text e.expires_at_ms db (rw eq at h))
      go (list l) eq h = rw (eq, as_string) (Refines-nothing (rw eq at h))
      go (hash x) eq h = rw (eq, as_string) (Refines-nothing (rw eq at h))
      go (members s) eq h = rw (eq, as_string) (Refines-nothing (rw eq at h))

  pub refine_list :
      (f : List Bytes → ℤ → Outcome A × Cell) (body : List Bytes → Db A)
      → ((l : List Bytes) (t : ℤ) (db : Database)
          → content k db ≡ some (list l, t)
          → Refines k db (f l t) (body l db))
      → (e : Entry) (db : Database) → content k db ≡ some (e.value, e.expires_at_ms)
      → Refines k db (on_list missing f (some (e.value, e.expires_at_ms))) ((as_list e >>= body) db)
  unfolding as_list
  refine_list f body right e db = go e.value refl
    where
      go :
          (v : Value)
          → e.value ≡ v
          → content k db ≡ some (e.value, e.expires_at_ms)
          → Refines k db
              (on_list missing f (some (e.value, e.expires_at_ms)))
              ((as_list e >>= body) db)
      go (list l) eq h = rw (eq, as_list) (right l e.expires_at_ms db (rw eq at h))
      go (string l) eq h = rw (eq, as_list) (Refines-nothing (rw eq at h))
      go (hash x) eq h = rw (eq, as_list) (Refines-nothing (rw eq at h))
      go (members s) eq h = rw (eq, as_list) (Refines-nothing (rw eq at h))

  pub refine_hash :
      (f : Assoc Bytes → ℤ → Outcome A × Cell) (body : Assoc Bytes → Db A)
      → ((h : Assoc Bytes) (t : ℤ) (db : Database)
          → content k db ≡ some (hash h, t)
          → Refines k db (f h t) (body h db))
      → (e : Entry) (db : Database) → content k db ≡ some (e.value, e.expires_at_ms)
      → Refines k db (on_hash missing f (some (e.value, e.expires_at_ms))) ((as_hash e >>= body) db)
  unfolding as_hash
  refine_hash f body right e db = go e.value refl
    where
      go :
          (v : Value)
          → e.value ≡ v
          → content k db ≡ some (e.value, e.expires_at_ms)
          → Refines k db
              (on_hash missing f (some (e.value, e.expires_at_ms)))
              ((as_hash e >>= body) db)
      go (hash x) eq h = rw (eq, as_hash) (right x e.expires_at_ms db (rw eq at h))
      go (string l) eq h = rw (eq, as_hash) (Refines-nothing (rw eq at h))
      go (list x) eq h = rw (eq, as_hash) (Refines-nothing (rw eq at h))
      go (members s) eq h = rw (eq, as_hash) (Refines-nothing (rw eq at h))

  pub refine_set :
      (f : List Bytes → ℤ → Outcome A × Cell) (body : List Bytes → Db A)
      → ((s : List Bytes) (t : ℤ) (db : Database)
          → content k db ≡ some (members s, t)
          → Refines k db (f s t) (body s db))
      → (e : Entry) (db : Database) → content k db ≡ some (e.value, e.expires_at_ms)
      → Refines k db (on_set missing f (some (e.value, e.expires_at_ms))) ((as_set e >>= body) db)
  unfolding as_set
  refine_set f body right e db = go e.value refl
    where
      go :
          (v : Value)
          → e.value ≡ v
          → content k db ≡ some (e.value, e.expires_at_ms)
          → Refines k db
              (on_set missing f (some (e.value, e.expires_at_ms)))
              ((as_set e >>= body) db)
      go (members x) eq h = rw (eq, as_set) (right x e.expires_at_ms db (rw eq at h))
      go (string l) eq h = rw (eq, as_set) (Refines-nothing (rw eq at h))
      go (list x) eq h = rw (eq, as_set) (Refines-nothing (rw eq at h))
      go (hash s) eq h = rw (eq, as_set) (Refines-nothing (rw eq at h))

-- An operation that creates the node of a missing key, with the value `v`, and then goes on as with
-- a node that was there: `spec` says what the rest does with the node's value and deadline.
pub acquire-Refines :
    {A : Type 0} (k : Bytes) (v : Value) (spec : Cell → Outcome A × Cell) (rest : Entry → Db A)
    → spec none ≡ spec (some (v, no_expiry))
    → ((e : Entry) (db : Database)
        → content k db ≡ some (e.value, e.expires_at_ms)
        → Refines k db (spec (some (e.value, e.expires_at_ms))) (rest e db))
    → (db : Database)
    → Refines k db (spec (settle (time db) (content k db))) (
        (find_live k >>= λ node. elim node [ none ↦ create_node k v | some e ↦ pure e ] >>= rest)
          db)
unfolding new_entry
acquire-Refines k v spec rest fresh held =
    refine_live k spec _
      (λ db e.
        let created = create-Writes k v db e in
        rw (fresh, e) (Refines-then created (held (new_entry k v) (create k v db) created.here)))
      (λ e db found. held e db (ap content_of found))
