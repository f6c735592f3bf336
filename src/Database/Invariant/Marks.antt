-- ===== src/Database/Invariant/Marks.antt =====
-- The vector of keys with a deadline: a key enters at its end, and leaves by swap-and-pop.
use flash_kv.Common.{
  ℕ, ◌+◌, ◌-◌, ◌≡◌, none, some, List, [], ◌∷◌, ◌++◌, arith, sym, ◌∙◌, Bytes, if◌then◌else◌, ltb,
  ◌==◌, ◌===◌, ===_iff, length, get_elem?, set, back?, drop_last, length-set, get_elem?-set,
  get_elem?-drop_last, get_elem?-append_last, get_elem?-lt, back?-get_elem?, Assoc, lookup, modify,
  lookup-modify, without, lookup-without,
}
use flash_kv.Common.Int.{ℤ}
use flash_kv.Database.State.{Entry, slot, unmark}
use flash_kv.Database.Invariant.{IsIndexed}

abbrev pub reindex : ℕ → Entry → Entry
reindex i e = record e { volatile_index = some i }

abbrev pub redate : ℤ → Entry → Entry
redate t e = record e { expires_at_ms = t }

module _ {entries : Assoc Entry} {volatile : List Bytes} (h : IsIndexed entries volatile) where
  module _ (k last : Bytes) (i : ℕ) (at_i : slot k entries ≡ some i)
      (at_end : back? volatile ≡ some last) where
    abbrev popped : List Bytes
    popped = drop_last (set volatile i last)

    abbrev swapped : Assoc Entry
    swapped = modify k unmark (modify last (reindex i) entries)

    get_elem?-popped :
        (m : ℕ)
        → get_elem? popped m ≡ (
            if ltb (m + 1) (length volatile)
            then if i == m then some last else get_elem? volatile m
            else none)
    get_elem?-popped m = ground (
      arith,
      get_elem?-drop_last (set volatile i last) m,
      length-set volatile i last,
      get_elem?-set volatile i m last,
    )

    slot-swapped :
        (j : Bytes)
        → slot j swapped ≡ (if k === j then none else if last === j then some i else slot j entries)
    slot-swapped j = ground (
      arith,
      lookup-modify k j unmark (modify last (reindex i) entries),
      lookup-modify last j (reindex i) entries,
      h.complete last (length volatile - 1),
      back?-get_elem? volatile,
      ===_iff last j,
    )

    pub swap_and_pop-IsIndexed : IsIndexed swapped popped
    swap_and_pop-IsIndexed = record {
      sound = λ j m s. ground (
        arith,
        slot-swapped j,
        get_elem?-popped m,
        h.sound k i,
        h.sound j m,
        get_elem?-lt volatile m {v = j},
        get_elem?-lt volatile i {v = k},
        back?-get_elem? volatile,
        ===_iff k j,
        ===_iff last j,
      );
      complete = λ j m s. ground (
        arith,
        slot-swapped j,
        get_elem?-popped m,
        h.complete j m,
        h.complete last (length volatile - 1),
        back?-get_elem? volatile,
        ===_iff k j,
        ===_iff last j,
      );
      unmarked = λ j x s free. ground (
        arith,
        lookup-modify k j unmark (modify last (reindex i) entries),
        lookup-modify last j (reindex i) entries,
        h.unmarked j x,
      );
    }

  -- A key that has no deadline yet gets one: it goes to the end of the vector.
  module _ (k : Bytes) (t : ℤ) {e : Entry} (found : lookup k entries ≡ some e) where
    abbrev entered : Assoc Entry
    entered = modify k (redate t) (modify k (reindex (length volatile)) entries)

    slot-entered :
        (j : Bytes) → slot j entered ≡ (if k === j then some (length volatile) else slot j entries)
    slot-entered j = ground (
      arith,
      lookup-modify k j (redate t) (modify k (reindex (length volatile)) entries),
      lookup-modify k j (reindex (length volatile)) entries,
      ===_iff k j,
    )

    pub enter-IsIndexed : slot k entries ≡ none → IsIndexed entered (volatile ++ k ∷ [])
    enter-IsIndexed free = record {
      sound = λ j m s. ground (
        arith,
        slot-entered j,
        get_elem?-append_last volatile k m,
        h.sound j m,
        get_elem?-lt volatile m {v = j},
        ===_iff k j,
      );
      complete = λ j m s.
          ground (
            arith,
            slot-entered j,
            get_elem?-append_last volatile k m,
            h.complete j m,
            ===_iff k j,
          );
      unmarked = λ j x s n. ground (
        arith,
        lookup-modify k j (redate t) (modify k (reindex (length volatile)) entries),
        lookup-modify k j (reindex (length volatile)) entries,
        h.unmarked j x,
      );
    }

    -- A key that has a deadline gets another one, and keeps its place.
    pub redate-IsIndexed :
        {i : ℕ} → slot k entries ≡ some i → IsIndexed (modify k (redate t) entries) volatile
    redate-IsIndexed {i} held = record {
      sound = λ j m s. h.sound j m (sym (kept j) ∙ s);
      complete = λ j m s. kept j ∙ h.complete j m s;
      unmarked = λ j x s n.
          ground (arith, lookup-modify k j (redate t) entries, h.unmarked j x, ===_iff k j);
    }
      where
        kept : (j : Bytes) → slot j (modify k (redate t) entries) ≡ slot j entries
        kept j = ground (arith, lookup-modify k j (redate t) entries)

  -- A key without a place in the vector goes, and takes no place along.
  pub without-IsIndexed :
      (k : Bytes) → slot k entries ≡ none → IsIndexed (without k entries) volatile
  without-IsIndexed k free = record {
    sound = λ j m s. ground (arith, lookup-without k j entries, h.sound j m);
    complete = λ j m s. ground (arith, lookup-without k j entries, h.complete j m, ===_iff k j);
    unmarked = λ j x s n. ground (arith, lookup-without k j entries, h.unmarked j x);
  }

  -- A key without a place in the vector has nothing to lose.
  pub unmark-IsIndexed :
      (k : Bytes) → slot k entries ≡ none → IsIndexed (modify k unmark entries) volatile
  unmark-IsIndexed k free = record {
    sound = λ j m s. ground (arith, lookup-modify k j unmark entries, h.sound j m);
    complete =
        λ j m s. ground (arith, lookup-modify k j unmark entries, h.complete j m, ===_iff k j);
    unmarked = λ j x s n. ground (arith, lookup-modify k j unmark entries, h.unmarked j x);
  }
