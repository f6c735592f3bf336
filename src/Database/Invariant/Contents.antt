-- ===== src/Database/Invariant/Contents.antt =====
-- The values that the hash table holds stay proper containers.
use flash_kv.Common.{
  ◌≡◌, sym, subst, Bool-cases, some, ◌∷◌, arith, inl, inr, Option-cases, Bytes, ◌===◌, ===_iff,
  Assoc, lookup, without, modify, lookup-without, lookup-modify,
}
use flash_kv.Database.State.{Entry}
use flash_kv.Database.Invariant.{AreProper, IsProper}

module _ (k : Bytes) {entries : Assoc Entry} (h : AreProper entries) where
  -- An edit keeps the value of each node, or gives the node of `k` a proper one.
  pub modify-AreProper :
      (f : Entry → Entry)
      → ((e : Entry) → lookup k entries ≡ some e → IsProper (f e).value)
      → AreProper (modify k f entries)
  modify-AreProper f new = record {
    all = λ j x s. elim (Option-cases (lookup j entries)) [
      | inl e ↦ absurd (ground (arith, lookup-modify k j f entries))
      | inr (y, e) ↦ elim (Bool-cases (k === j)) [
        | inl same ↦
            let new_y = new y (ground (arith, ===_iff k j)) in
            let here : f y ≡ x = ground (arith, lookup-modify k j f entries) in
            subst (λ (z : Entry). IsProper z.value) here new_y
        | inr other ↦
            let here : y ≡ x = ground (arith, lookup-modify k j f entries) in
            subst (λ (z : Entry). IsProper z.value) here (h.all j y e)
      ]
    ];
  }

  -- An edit of something else than the value.
  pub modify-AreProper_same :
      (f : Entry → Entry) → ((e : Entry) → (f e).value ≡ e.value) → AreProper (modify k f entries)
  modify-AreProper_same f same =
      modify-AreProper f λ e found. subst IsProper (sym (same e)) (h.all k e found)

  pub without-AreProper : AreProper (without k entries)
  without-AreProper = record {
    all = λ j x s. h.all j x (ground (arith, lookup-without k j entries));
  }

  pub create-AreProper : (e : Entry) → IsProper e.value → AreProper ((k, e) ∷ entries)
  unfolding lookup
  create-AreProper e new = record {
    all = λ j x s. elim (Bool-cases (k === j)) [
      | inl same ↦
          let here : e ≡ x = ground arith in subst (λ (z : Entry). IsProper z.value) here new
      | inr other ↦ h.all j x (ground arith)
    ];
  }
