-- ===== src/Database/Preserves/Sets.antt =====
-- Set operations keep the invariant.
use flash_kv.Common.{
  ℕ, ◌+◌, ◌≡◌, refl, true, false, List, [], ◌∷◌, arith, Bytes, Bool-cases, inl, inr, ===_iff,
  contains, remove, Unique, remove_absent, remove-Unique,
}
use flash_kv.Common.Exec.{ok}
use flash_kv.Database.State.{Database, members, list_cost, element_cost, payload_memory}
use flash_kv.Database.Sets.{
  add_member, add_members, set_add, remove_member, remove_members, set_remove, set_members,
  set_is_member, set_cardinality,
}
use flash_kv.Database.Invariant.{IsWellFormed}
use flash_kv.Database.Invariant.Values.{Holds, Holds-IsProper, grow-Holds, shrink-Holds}
use flash_kv.Database.Preserves.Hashes.{drop_if_empty_held}
use flash_kv.Database.Typed.{Sound, set_cases, touch_held, found_induction, acquired_induction}

list_cost-remove :
    (m : Bytes) (s : List Bytes)
    → Unique s
    → contains m s ≡ true
    → list_cost (remove m s) + element_cost m ≡ list_cost s
unfolding list_cost contains remove
list_cost-remove m [] u c = ground arith
list_cost-remove m (x ∷ s) u c =
    ground (arith, list_cost-remove m s u.1, ===_iff x m, remove_absent m s)

add_member-Holds :
    (k m : Bytes) (s : List Bytes) {db : Database}
    → contains m s ≡ false
    → Holds k (members s) db
    → Holds k (members (m ∷ s)) (add_member k m s db)
unfolding add_member payload_memory
add_member-Holds k m s new held =
    grow-Holds k (members s) (members (m ∷ s)) (element_cost m) (unfold list_cost in omega arith)
      (new, Holds-IsProper held) held

remove_member-Holds :
    (k m : Bytes) (s : List Bytes) {db : Database}
    → contains m s ≡ true
    → Holds k (members s) db
    → Holds k (members (remove m s)) (remove_member k m s db)
unfolding remove_member payload_memory
remove_member-Holds k m s there held =
    shrink-Holds k (members s) (members (remove m s)) (element_cost m)
      (list_cost-remove m s (Holds-IsProper held) there) (remove-Unique m s (Holds-IsProper held))
      held

-- The loop returns, and stores a set with every member that was to be added.
pub add_members-Holds :
    (k : Bytes) (ms s : List Bytes) (added : ℕ) {db : Database}
    → Holds k (members s) db
    → (s' : List Bytes) × (n : ℕ) × ((add_members k ms s added db).0 ≡ ok n)
      × Holds k (members s') (add_members k ms s added db).1
unfolding add_members
add_members-Holds k [] s added held = (s, added, refl, held)
add_members-Holds k (m ∷ ms) s added held = elim (Bool-cases (contains m s)) [
  | inl there ↦ rw there (add_members-Holds k ms s added held)
  | inr new ↦ rw new (add_members-Holds k ms (m ∷ s) (added + 1) (add_member-Holds k m s new held))
]

pub set_add-IsWellFormed :
    (k : Bytes) (ms : List Bytes) (db : Database)
    → IsWellFormed db
    → IsWellFormed (set_add k ms db).1
unfolding set_add
set_add-IsWellFormed k ms db w = acquired_induction k db w Sound (members []) _ tt λ e db' held.
    set_cases Sound e db' held.well_formed _ λ s eq.
      let (s', n, returns, after) = add_members-Holds k ms s 0 (rw eq at held) in
      rw returns (touch_held k after)

-- The loop returns the set that it has stored.
pub remove_members-Holds :
    (k : Bytes) (ms s : List Bytes) (removed : ℕ) {db : Database}
    → Holds k (members s) db
    → (s' : List Bytes) × (n : ℕ) × ((remove_members k ms s removed db).0 ≡ ok (s', n))
      × Holds k (members s') (remove_members k ms s removed db).1
unfolding remove_members
remove_members-Holds k [] s removed held = (s, removed, refl, held)
remove_members-Holds k (m ∷ ms) s removed held = elim (Bool-cases (contains m s)) [
  | inl there ↦
      rw there (
        remove_members-Holds k ms (remove m s) (removed + 1) (remove_member-Holds k m s there held))
  | inr absent ↦ rw absent (remove_members-Holds k ms s removed held)
]

pub set_remove-IsWellFormed :
    (k : Bytes) (ms : List Bytes) (db : Database)
    → IsWellFormed db
    → IsWellFormed (set_remove k ms db).1
unfolding set_remove
set_remove-IsWellFormed k ms db w =
    found_induction k db w Sound _ (λ db' w'. w')
      λ e db' held. set_cases Sound e db' held.well_formed _ λ s eq.
        let (s', n, returns, after) = remove_members-Holds k ms s 0 (rw eq at held) in
        rw returns (drop_if_empty_held k s' after)

pub set_members-IsWellFormed :
    (k : Bytes) (db : Database) → IsWellFormed db → IsWellFormed (set_members k db).1
unfolding set_members
set_members-IsWellFormed k db w =
    found_induction k db w Sound _ (λ db' w'. w')
      (λ e db' held. set_cases Sound e db' held.well_formed _ (λ s _. touch_held k held))

pub set_is_member-IsWellFormed :
    (k m : Bytes) (db : Database) → IsWellFormed db → IsWellFormed (set_is_member k m db).1
unfolding set_is_member
set_is_member-IsWellFormed k m db w =
    found_induction k db w Sound _ (λ db' w'. w')
      (λ e db' held. set_cases Sound e db' held.well_formed _ (λ s _. held.well_formed))

pub set_cardinality-IsWellFormed :
    (k : Bytes) (db : Database) → IsWellFormed db → IsWellFormed (set_cardinality k db).1
unfolding set_cardinality
set_cardinality-IsWellFormed k db w =
    found_induction k db w Sound _ (λ db' w'. w')
      (λ e db' held. set_cases Sound e db' held.well_formed _ (λ s _. held.well_formed))
