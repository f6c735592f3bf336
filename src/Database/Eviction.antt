-- ===== src/Database/Eviction.antt =====
-- `evictIfNeeded`: the invariant, the limit, and the order of eviction.
use mathlib.Core.List.{reverse, reverse-cons, append_assoc, append-nil}
use native.Mathlib.Nat.{le_refl}
use flash_kv.Common.{
  ℕ, zero, suc, ◌+◌, ◌≤◌, ◌≡◌, ◌≢◌, refl, sym, ap, ◌∙◌, inl, inr, Bool, true, false, not, none,
  some, List, [], ◌∷◌, ◌++◌, arith, Bytes, Option-cases, Bool-cases, ===_refl, ===_iff, ltb, ◌==◌,
  if◌then◌else◌, length, back?, drop_last, lookup, contains, remove, Unique, length-remove, Assoc,
}
use flash_kv.Database.State.{Database, Entry, erase, count_evicted}
use flash_kv.Database.Expiry.{allows_eviction, evict_loop, evict_if_needed}
use flash_kv.Database.Invariant.{IsWellFormed, total}
use flash_kv.Database.Invariant.Nodes.{erase-IsWellFormed}
use flash_kv.Database.Invariant.Fields.{settings, settings-erase, lru-erase}
use flash_kv.Database.Live.{content, content-erase}

contains-back : (l : List Bytes) {k : Bytes} → back? l ≡ some k → contains k l ≡ true
unfolding contains
contains-back [] e = ground arith
contains-back (x ∷ []) {k} e = ground (arith, ===_iff x k)
contains-back (x ∷ y ∷ l) {k} e = ground (arith, contains-back (y ∷ l) {k = k} e)

-- In a list of distinct keys the last one is all that `remove` takes.
remove-back : (l : List Bytes) {k : Bytes} → Unique l → back? l ≡ some k → remove k l ≡ drop_last l
unfolding remove contains
remove-back [] u e = refl
remove-back (x ∷ []) {k} u e = ground (arith, ===_iff x k)
remove-back (x ∷ y ∷ l) {k} u e =
    ground (arith, remove-back (y ∷ l) {k = k} u.1 e, contains-back (y ∷ l) {k = k} e, ===_iff x k)

drop_last-back : (l : List Bytes) {k : Bytes} → back? l ≡ some k → l ≡ drop_last l ++ k ∷ []
drop_last-back [] e = ground arith
drop_last-back (x ∷ []) e = ground arith
drop_last-back (x ∷ y ∷ l) {k} e = ap (◌∷◌ x) (drop_last-back (y ∷ l) {k = k} e)

back?-none : (l : List Bytes) → back? l ≡ none → l ≡ []
back?-none [] e = refl
back?-none (x ∷ []) e = ground arith
back?-none (x ∷ y ∷ l) e = absurd (ne (back?-none (y ∷ l) e))
  where
    ne : (y ∷ l) ≡ [] → ⊥
    ne q = ground arith

-- With no key in the recency list nothing is stored.
memory-empty : (db : Database) → IsWellFormed db → db.lru ≡ [] → db.memory_used ≡ 0
memory-empty db w e = none_stored db.entries refl
  where
    none_stored : (l : Assoc Entry) → db.entries ≡ l → db.memory_used ≡ 0
    none_stored [] q = unfold total in ground (arith, w.metered.sum)
    none_stored ((k, x) ∷ l) q =
        unfold lookup contains in ground (arith, w.linked.listed k, ===_refl k)

pub victim_stored :
    (db : Database) {k : Bytes}
    → IsWellFormed db
    → back? db.lru ≡ some k
    → (e : Entry) × (lookup k db.entries ≡ some e)
victim_stored db {k} w e = elim (Option-cases (lookup k db.entries)) [
  | inl missing ↦ absurd (ground (arith, w.linked.listed k, contains-back db.lru {k = k} e))
  | inr found ↦ found
]

-- What a run of the loop from `db` has done, with the keys in `evicted` gone before.
pub record Evicts (db : Database) (evicted : List Bytes) (r : Bool × List Bytes × Database)
    : Type 0 where
  pub well_formed : IsWellFormed r.2
  pub out : List Bytes
  pub returned : r.1 ≡ evicted ++ out
  pub order : db.lru ≡ r.2.lru ++ reverse out
  pub same_settings : settings r.2 ≡ settings db
  pub view : (j : Bytes) → content j r.2 ≡ (if contains j out then none else content j db)
  pub accepted : r.0 ≡ true → r.2.memory_used ≤ db.memory_limit
  pub refused :
      r.0 ≡ false → (db.memory_limit + 1 ≤ r.2.memory_used) × (allows_eviction db.policy ≡ false)

-- One round: the last key of the recency list goes.
after_victim :
    (db : Database) (victim : Bytes) (evicted : List Bytes) {r : Bool × List Bytes × Database}
    → IsWellFormed db
    → back? db.lru ≡ some victim
    → Evicts (count_evicted (erase victim db)) (evicted ++ victim ∷ []) r
    → Evicts db evicted r
after_victim db victim evicted {r} w last h = record {
  well_formed = h.well_formed;
  out = victim ∷ h.out;
  returned = h.returned ∙ append_assoc evicted (victim ∷ []) h.out;
  order =
      drop_last-back db.lru {k = victim} last
      ∙ ap (λ l. l ++ victim ∷ [])
          (sym (lru-erase victim db ∙ remove-back db.lru {k = victim} w.linked.unique last)
            ∙ h.order)
      ∙ append_assoc r.2.lru (reverse h.out) (victim ∷ [])
      ∙ ap (◌++◌ r.2.lru) (sym (reverse-cons victim h.out));
  same_settings = h.same_settings ∙ settings-erase victim db;
  view = λ j. unfold contains in ground (arith, h.view j, content-erase victim j db);
  accepted = λ a. ground (arith, h.accepted a, same_limit);
  refused = λ a. ground (arith, h.refused a, same_limit, same_policy);
}
  where
    same_limit : (erase victim db).memory_limit ≡ db.memory_limit
    same_limit = ap (λ s. s.limit) (settings-erase victim db)

    same_policy : (erase victim db).policy ≡ db.policy
    same_policy = ap (λ s. s.policy) (settings-erase victim db)

-- The loop stops here, with the answer `b`.
stop :
    (b : Bool) (db : Database) (evicted : List Bytes)
    → IsWellFormed db
    → (b ≡ true → db.memory_used ≤ db.memory_limit)
    → (b ≡ false → (db.memory_limit + 1 ≤ db.memory_used) × (allows_eviction db.policy ≡ false))
    → Evicts db evicted (b, evicted, db)
stop b db evicted w fits over = record {
  well_formed = w;
  out = [];
  returned = sym (append-nil evicted);
  order = sym (append-nil db.lru);
  same_settings = refl;
  view = unfold contains in λ j. refl;
  accepted = fits;
  refused = over;
}

-- Over the limit there is a key to evict.
lru_not_empty :
    (db : Database) → IsWellFormed db → ltb db.memory_limit db.memory_used ≡ true → db.lru ≢ []
lru_not_empty db w over e = ground (arith, memory-empty db w e)

one_round :
    (fuel : ℕ) (db : Database) (evicted : List Bytes)
    → ((db' : Database) (evicted' : List Bytes)
        → IsWellFormed db'
        → length db'.lru ≤ fuel
        → Evicts db' evicted' (evict_loop fuel db' evicted'))
    → IsWellFormed db
    → length db.lru ≤ suc fuel
    → ltb db.memory_limit db.memory_used ≡ true
    → Evicts db evicted (evict_loop (suc fuel) db evicted)
unfolding evict_loop
one_round fuel db evicted rest w enough over = elim (Bool-cases (allows_eviction db.policy)) [
  | inr refuses ↦
      rw (over, refuses)
        (stop false db evicted w (λ f. ground arith) (λ _. (ground arith, refuses)))
  | inl allows ↦ elim (Option-cases (back? db.lru)) [
    | inl nothing ↦ absurd (lru_not_empty db w over (back?-none db.lru nothing))
    | inr (victim, last) ↦
        let (e, found) = victim_stored db {k = victim} w last in
        rw (over, allows, last, evict_loop)
          (after_victim db victim evicted w last (
            rest (count_evicted (erase victim db)) (evicted ++ victim ∷ [])
              (erase-IsWellFormed victim db {e = e} found w)
              (ground (
                arith,
                lru-erase victim db,
                length-remove victim db.lru w.linked.unique,
                contains-back db.lru {k = victim} last,
              ))))
  ]
]

length_zero : (l : List Bytes) → length l ≤ 0 → l ≡ []
length_zero [] h = refl
length_zero (x ∷ l) h = absurd (omega arith)

evict_loop-Evicts :
    (fuel : ℕ) (db : Database) (evicted : List Bytes)
    → IsWellFormed db
    → length db.lru ≤ fuel
    → Evicts db evicted (evict_loop fuel db evicted)
evict_loop-Evicts zero db evicted w enough =
    let idle = memory-empty db w (length_zero db.lru enough) in
    let within : not (ltb db.memory_limit db.memory_used) ≡ true = ground arith in
    unfold evict_loop in rw within (stop true db evicted w (λ _. ground arith) (λ f. ground arith))
evict_loop-Evicts (suc fuel) db evicted w enough =
    elim (Bool-cases (ltb db.memory_limit db.memory_used)) [
      | inl over ↦ one_round fuel db evicted (evict_loop-Evicts fuel) w enough over
      | inr fits ↦
          unfold evict_loop in
          rw fits (stop true db evicted w (λ _. ground arith) (λ f. ground arith))
    ]

-- `evictIfNeeded` on a well-formed state with a limit that is not 0: the state stays well-formed,
-- the evicted keys are the end of the recency list, from the back on, they alone leave the view,
-- the settings stay, the answer true means memory within the limit, and false means memory over
-- the limit under `noeviction`.
pub evict_if_needed-Evicts :
    (db : Database) → IsWellFormed db → db.memory_limit ≢ 0 → Evicts db [] (evict_if_needed db)
unfolding evict_if_needed
evict_if_needed-Evicts db w limited = elim (Bool-cases (db.memory_limit == 0)) [
  | inl unlimited ↦ absurd (limited (ground arith))
  | inr set ↦ rw set (evict_loop-Evicts (length db.lru) db [] w (le_refl (length db.lru)))
]

pub evict_if_needed-IsWellFormed :
    (db : Database) → IsWellFormed db → IsWellFormed (evict_if_needed db).2
unfolding evict_if_needed
evict_if_needed-IsWellFormed db w = elim (Bool-cases (db.memory_limit == 0)) [
  | inl unlimited ↦ rw unlimited w
  | inr set ↦
      rw set (evict_loop-Evicts (length db.lru) db [] w (le_refl (length db.lru))).well_formed
]
