-- ===== src/Database/Invariant/Memory.antt =====
-- The memory accounting under each change of the hash table.
use flash_kv.Common.{
  ℕ, ◌+◌, ◌%◌, ◌≡◌, refl, some, [], ◌∷◌, arith, Bytes, sym, ap, ◌∙◌, inl, inr, Option-cases,
  ===_iff, length, Assoc, lookup, without, modify, Distinct, lookup-without, lookup-modify,
  without_absent, modify_absent, word, sub64,
}
use flash_kv.Database.State.{Entry, Value, payload_memory, entry_overhead}
use flash_kv.Database.Invariant.{IsMetered, entry_cost, total}

pub total-without :
    (k : Bytes) (l : Assoc Entry) {e : Entry}
    → Distinct l
    → lookup k l ≡ some e
    → total (without k l) + entry_cost k e ≡ total l
unfolding lookup without total
total-without k [] d f = ground arith
total-without k ((i, x) ∷ l) {e} d f =
    ground (arith, total-without k l {e = e} d.1, ===_iff i k, without_absent k l)

pub total-modify :
    (k : Bytes) (f : Entry → Entry) (l : Assoc Entry) {e : Entry}
    → Distinct l
    → lookup k l ≡ some e
    → total (modify k f l) + entry_cost k e ≡ total l + entry_cost k (f e)
unfolding lookup modify total
total-modify k f [] d s = ground arith
total-modify k f ((i, x) ∷ l) {e} d s =
    ground (arith, total-modify k f l {e = e} d.1, ===_iff i k, modify_absent k f l)

-- An edit that leaves the value and the charge alone.
pub total-modify_same :
    (k : Bytes) (f : Entry → Entry) (l : Assoc Entry)
    → ((e : Entry) → (f e).value ≡ e.value)
    → total (modify k f l) ≡ total l
unfolding modify total
total-modify_same k f [] same = refl
total-modify_same k f ((i, x) ∷ l) same =
    ground (arith, total-modify_same k f l same, same x, ===_iff i k)

pub modify-IsMetered :
    (k : Bytes) (f : Entry → Entry) {entries : Assoc Entry} {used : ℕ}
    → ((e : Entry) → (f e).value ≡ e.value)
    → ((e : Entry) → (f e).memory ≡ e.memory)
    → IsMetered entries used
    → IsMetered (modify k f entries) used
modify-IsMetered k f {entries} {used} same charge h = record {
  each = λ j x s. elim (Option-cases (lookup j entries)) [
    | inl e ↦ ground (arith, lookup-modify k j f entries)
    | inr (y, e) ↦ ground (arith, lookup-modify k j f entries, same y, charge y, h.each j y)
  ];
  sum = h.sum ∙ ap (λ (n : ℕ). n % word) (sym (total-modify_same k f entries same));
}

pub without-IsMetered :
    (k : Bytes) {e : Entry} {entries : Assoc Entry} {used : ℕ}
    → Distinct entries
    → lookup k entries ≡ some e
    → IsMetered entries used
    → IsMetered (without k entries) (sub64 used e.memory)
unfolding sub64
without-IsMetered k {e} {entries} {used} d found h = record {
  each = λ j x s. ground (arith, lookup-without k j entries, h.each j x);
  sum = ground (arith, total-without k entries {e = e} d found, h.each k e found, h.sum);
}

-- The value of a node changes, and both counters by the same function, which tracks the payload.
module _ (k : Bytes) (v : Value) (F : ℕ → ℕ) {e : Entry} {entries : Assoc Entry} {used : ℕ}
    (d : Distinct entries) (found : lookup k entries ≡ some e) (h : IsMetered entries used)
    (tracks : (rest : ℕ)
      → F ((rest + payload_memory e.value) % word) ≡ (rest + payload_memory v) % word) where
  abbrev pub reprice : Entry → Entry
  reprice x = record x { value = v; memory = F x.memory }

  pub reprice-IsMetered : IsMetered (modify k reprice entries) (F used)
  reprice-IsMetered = record {
    each = λ j x s. ground (
      arith,
      lookup-modify k j reprice entries,
      h.each j x,
      h.each k e found,
      tracks (entry_overhead + length k),
      ===_iff k j,
    );
    sum = ground (
      arith,
      total-modify k reprice entries {e = e} d found,
      total-without k entries {e = e} d found,
      h.sum,
      tracks (total (without k entries) + entry_overhead + length k),
    );
  }
