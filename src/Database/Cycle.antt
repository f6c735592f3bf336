-- ===== src/Database/Cycle.antt =====
-- `activeExpireCycle`: the invariant, the count of removed keys, and the end of the loop.
use Prim.Native.Nat.{min}
use flash_kv.Common.{
  ℕ, zero, suc, ◌+◌, ◌*◌, ◌<◌, ◌≡◌, refl, ap, ◌∙◌, inl, inr, Bool, true, false, ◌||◌, Option, none,
  some, arith, Bytes, Option-cases, Bool-cases, leb, length, get_elem?, is_empty, lookup, ===_iff,
  ◌===◌, ◌⊎◌,
}
use flash_kv.Common.Int.{ℤ, leb_ℤ}
use flash_kv.Common.Exec.{ok}
use flash_kv.Database.State.{Database, Entry, Value, slot, now, count_expired}
use flash_kv.Database.Expiry.{
  pick, deadline_of, sample, sample_loop, cycle_loop, active_expire_cycle,
}
use flash_kv.Database.Invariant.{IsWellFormed}
use flash_kv.Database.Invariant.Nodes.{erase-IsWellFormed}
use flash_kv.Database.Invariant.Fields.{length-volatile_keys-erase, length-entries-erase}
use flash_kv.Database.Live.{content, content-erase}

-- A key of the vector has a node, with a place in the vector.
pub marked_stored :
    (db : Database) (i : ℕ) {k : Bytes}
    → IsWellFormed db
    → get_elem? db.volatile_keys i ≡ some k
    → (e : Entry) × (lookup k db.entries ≡ some e) × (slot k db.entries ≡ some i)
marked_stored db i {k} w at_i = elim (Option-cases (lookup k db.entries)) [
  | inl missing ↦ absurd (ground (arith, w.indexed.complete k i))
  | inr (e, found) ↦ (e, found, w.indexed.complete k i at_i)
]

abbrev pub overdue : ℤ → Option (Value × ℤ) → Bool
overdue current none = false
overdue current (some (_, t)) = leb_ℤ t current

-- From `db` to `db'` n keys with a deadline have gone; every key is as it was, or has gone and its
-- deadline had passed.
pub record Drops (current : ℤ) (db db' : Database) (n : ℕ) : Type 0 where
  pub well_formed : IsWellFormed db'
  pub fewer_keys : length db'.entries + n ≡ length db.entries
  pub fewer_marks : length db'.volatile_keys + n ≡ length db.volatile_keys
  pub view :
      (j : Bytes)
      → (content j db' ≡ content j db)
        ⊎ ((content j db' ≡ none) × (overdue current (content j db) ≡ true))

Drops-none : (current : ℤ) (db : Database) → IsWellFormed db → Drops current db db 0
Drops-none current db w = record {
  well_formed = w;
  fewer_keys = omega arith;
  fewer_marks = omega arith;
  view = λ j. inl refl;
}

Drops-then :
    {current : ℤ} {a b c : Database} (m n : ℕ)
    → Drops current a b m
    → Drops current b c n
    → Drops current a c (m + n)
Drops-then {current} {a} {b} {c} m n f g = record {
  well_formed = g.well_formed;
  fewer_keys = omega (arith, f.fewer_keys, g.fewer_keys);
  fewer_marks = omega (arith, f.fewer_marks, g.fewer_marks);
  view = λ j. elim (f.view j) [
    | inl same ↦ elim (g.view j) [
      | inl same' ↦ inl (same' ∙ same)
      | inr (gone, late) ↦ inr (gone, rw same at late)
    ]
    | inr (gone, late) ↦ elim (g.view j) [
      | inl same' ↦ inr (same' ∙ gone, late)
      | inr (gone', _) ↦ inr (gone', late)
    ]
  ];
}

sample-Drops :
    (current : ℤ) (db : Database)
    → IsWellFormed db
    → Drops current db (sample current (pick db)).0 (sample current (pick db)).1
unfolding sample pick
sample-Drops current db w =
    elim (Option-cases (get_elem? db.volatile_keys (db.draw db.draws (length db.volatile_keys)))) [
      | inl outside ↦
          rw (outside, sample)
            (record {
              well_formed = w;
              fewer_keys = omega arith;
              fewer_marks = omega arith;
              view = λ j. inl refl;
            })
      | inr (k, at_i) ↦ rw (at_i, sample) (chosen k (marked_stored db _ {k = k} w at_i))
    ]
  where
    drawn : Database
    drawn = record db { draws = db.draws + 1 }

    chosen :
        (k : Bytes)
        → (e : Entry) × (lookup k db.entries ≡ some e)
          × (slot k db.entries ≡ some (db.draw db.draws (length db.volatile_keys)))
        → Drops current db (sample current (some k, drawn)).0 (sample current (some k, drawn)).1
    chosen k (e, found, held) = elim (Bool-cases (leb_ℤ (deadline_of k drawn) current)) [
      | inl late ↦ rw late (record {
        well_formed = erase-IsWellFormed k drawn {e = e} found w;
        fewer_keys = length-entries-erase k drawn {e = e} w found;
        fewer_marks = length-volatile_keys-erase k drawn w held;
        view = λ j. elim (Bool-cases (k === j)) [
          | inl same ↦ inr (ground (arith, content-erase k j drawn), ground (arith, ===_iff k j))
          | inr other ↦ inl (ground (arith, content-erase k j drawn))
        ];
      })
      | inr early ↦ rw early (record {
        well_formed = w;
        fewer_keys = omega arith;
        fewer_marks = omega arith;
        view = λ j. inl refl;
      })
    ]

-- The inner loop: as many keys go as it has counted.
sample_loop-Drops :
    (samples : ℕ) (current : ℤ) (db : Database) (sampled expired : ℕ)
    → IsWellFormed db
    → (n : ℕ) × ((sample_loop samples current db sampled expired).2 ≡ expired + n)
      × Drops current db (sample_loop samples current db sampled expired).0 n
unfolding sample_loop
sample_loop-Drops zero current db sampled expired w = (0, omega arith, Drops-none current db w)
sample_loop-Drops (suc samples) current db sampled expired w =
    let step = sample current (pick db) in
    let first = sample-Drops current db w in
    let (n, counted, later) =
      sample_loop-Drops samples current step.0 (sampled + 1) (expired + step.1) first.well_formed in
    elim (Bool-cases (is_empty db.volatile_keys)) [
      | inl empty ↦ rw empty (0, omega arith, Drops-none current db w)
      | inr more ↦ rw more (step.1 + n, omega (arith, counted), Drops-then step.1 n first later)
    ]

-- The state in which the next round begins.
abbrev pub behind_round : ℕ → ℤ → Database → Database × ℕ × ℕ
behind_round per_loop current db =
    sample_loop (min per_loop (length db.volatile_keys)) current db 0 0

round_lem :
    (per_loop : ℕ) (current : ℤ) (db : Database)
    → IsWellFormed db
    → Drops current db (behind_round per_loop current db).0 (behind_round per_loop current db).2
round_lem per_loop current db w =
    let (n, counted, h) =
      sample_loop-Drops (min per_loop (length db.volatile_keys)) current db 0 0 w in
    let count : (behind_round per_loop current db).2 ≡ n = omega (arith, counted) in rw count h

-- The counter of expired keys does not count as a change.
counted_Drops :
    {current : ℤ} {a b : Database} {n : ℕ} (m : ℕ)
    → Drops current a b n
    → Drops current a (count_expired m b) n
counted_Drops m h = record {
  well_formed = h.well_formed;
  fewer_keys = h.fewer_keys;
  fewer_marks = h.fewer_marks;
  view = h.view;
}

cycle_loop-Drops :
    (fuel per_loop : ℕ) (current : ℤ) (late : ℕ → Bool) (round : ℕ) (db : Database) (removed : ℕ)
    → IsWellFormed db
    → (n : ℕ) × ((cycle_loop fuel per_loop current late round db removed).0 ≡ removed + n)
      × Drops current db (cycle_loop fuel per_loop current late round db removed).1 n
unfolding cycle_loop
cycle_loop-Drops zero per_loop current late round db removed w =
    (0, omega arith, Drops-none current db w)
cycle_loop-Drops (suc fuel) per_loop current late round db removed w =
    let (db', sampled, expired) = behind_round per_loop current db in
    let first = counted_Drops expired (round_lem per_loop current db w) in
    let (n, counted, later) =
      cycle_loop-Drops fuel per_loop current late (round + 1) (count_expired expired db')
        (removed + expired) first.well_formed in
    elim (Bool-cases (is_empty db.volatile_keys)) [
      | inl empty ↦ rw empty (0, omega arith, Drops-none current db w)
      | inr more ↦ rw more (elim (Bool-cases (leb (expired * 4) sampled || late round)) [
        | inl enough ↦ rw enough (expired, refl, first)
        | inr again ↦
            rw again (expired + n, omega (arith, counted), Drops-then expired n first later)
      ])
    ]

-- On a well-formed state, with any sample size, time budget and draws, the active expire cycle
-- returns the number n of keys that it has removed; the state stays well-formed, keys and keys
-- with a deadline are n fewer, and every key has its old view or has gone, its deadline being over
-- at the time the cycle read first.
pub active_expire_cycle-Drops :
    (per_loop : ℕ) (late : ℕ → Bool) (db : Database)
    → IsWellFormed db
    → (n : ℕ) × ((active_expire_cycle per_loop late db).0 ≡ ok n)
      × Drops (now db).0 db (active_expire_cycle per_loop late db).1 n
unfolding active_expire_cycle
active_expire_cycle-Drops per_loop late db w =
    let (n, counted, h) =
      cycle_loop-Drops (length db.volatile_keys + 1) per_loop (now db).0 late 0 (now db).1 0 w in
    let count : (cycle_loop (length db.volatile_keys + 1) per_loop (now db).0 late 0 (now db).1 0).0
        ≡ n =
      omega (arith, counted) in
    (
      n,
      ap ok count,
      record {
        well_formed = h.well_formed;
        fewer_keys = h.fewer_keys;
        fewer_marks = h.fewer_marks;
        view = h.view;
      },
    )

-- From a well-formed state, one more round of fuel changes nothing in the loop of the active
-- expire cycle once the fuel exceeds the number of keys with a deadline.
pub cycle_loop-fuel :
    (fuel per_loop : ℕ) (current : ℤ) (late : ℕ → Bool) (round : ℕ) (db : Database) (removed : ℕ)
    → IsWellFormed db
    → length db.volatile_keys < fuel
    → cycle_loop (suc fuel) per_loop current late round db removed
      ≡ cycle_loop fuel per_loop current late round db removed
unfolding cycle_loop
cycle_loop-fuel zero per_loop current late round db removed w enough = absurd (omega arith)
cycle_loop-fuel (suc fuel) per_loop current late round db removed w enough =
    let (db', sampled, expired) = behind_round per_loop current db in
    let first = counted_Drops expired (round_lem per_loop current db w) in
    elim (Bool-cases (is_empty db.volatile_keys)) [
      | inl empty ↦ rw empty
      | inr more ↦ rw more (elim (Bool-cases (leb (expired * 4) sampled || late round)) [
        | inl done ↦ rw done
        | inr again ↦ rw again (
            cycle_loop-fuel fuel per_loop current late (round + 1) (count_expired expired db')
              (removed + expired) first.well_formed
              (omega (arith, first.fewer_marks, some_expired expired sampled again)))
      ])
    ]
  where
    some_expired : (m n : ℕ) → (leb (m * 4) n || late round) ≡ false → 0 < m
    some_expired m n h = ground arith
