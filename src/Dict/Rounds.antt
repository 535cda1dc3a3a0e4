-- ===== src/Dict/Rounds.antt =====
-- The rounds of rehashing, and `dict_rehash` with its lock.
use ostrichserver.Base.{
  ℕ, zero, suc, ◌<◌, ◌≤◌, Bool, true, false, List, [], ◌∷◌, none, some, ◌≡◌, ◌⊎◌, inl, inr, refl,
  arith, ltb, ◌==◌, ◌∙◌, if◌then◌else◌, length, get_or, drop, length-set, Bool-cases, sym,
}
use ostrichserver.Dict.Interface.{DictType, RwLock}
use ostrichserver.Dict.Table.{Entry, Tables, reset_table}
use ostrichserver.Dict.Ops.{returns}
use ostrichserver.Dict.Rehash.{
  move_chain, clear_slot, rehash_slot, slot_from, finished, rehash_loop, dict_rehash, after_rounds,
}
use ostrichserver.Dict.Slots.{entries}
use ostrichserver.Dict.Lookup.{IsDict}
use ostrichserver.Dict.Moving.{
  count, counts, counts-clear, entries-clear, entries-drop_clear, next_filled-Fills, Moved,
  move_chain-Moved, IsMoving, in_both,
}
use ostrichserver.Dict.Locking.{with_lock}

entries-drop_inside :
    {A : Type 0} (cs : List (List A)) (i : ℕ) → 0 < entries (drop i cs) → i < length cs
unfolding entries
entries-drop_inside [] zero h = absurd (omega arith)
entries-drop_inside [] (suc i) h = absurd (omega arith)
entries-drop_inside (c ∷ cs) zero h = omega arith
entries-drop_inside (c ∷ cs) (suc i) h = omega (arith, entries-drop_inside cs i h)

count-le : {A : Type 0} (p : A → Bool) (c : List A) → count p c ≤ length c
unfolding count
count-le p [] = omega arith
count-le p (x ∷ xs) = elim (Bool-cases (p x)) [
  | inl yes_p ↦ rw yes_p (omega (arith, count-le p xs))
  | inr no_p ↦ rw no_p (omega (arith, count-le p xs))
]

counts-le : {A : Type 0} (p : A → Bool) (cs : List (List A)) → counts p cs ≤ entries cs
unfolding counts entries
counts-le p [] = omega arith
counts-le p (c ∷ cs) = omega (arith, count-le p c, counts-le p cs)

module _ {K V : Type 0} (t : DictType K V) where
  -- What a round does where entries are left in the old table.
  abbrev Round : Tables K V → ℕ → Type 0
  Round d i =
      (j : ℕ) × (slot_from t d i ≡ some j)
      × IsMoving t (rehash_slot t j d) (suc j)
      × ((p : Entry K V → Bool) → in_both t p (rehash_slot t j d) ≡ in_both t p d)
      × ((rehash_slot t j d).ht0.used < d.ht0.used)

  round-moves :
      (d d' : Tables K V) (j : ℕ)
      → IsDict d
      → j < length d.ht0.table
      → entries (drop j d.ht0.table) ≡ entries d.ht0.table
      → Moved t (get_or d.ht0.table j []) d d'
      → IsMoving t (clear_slot t j d') (suc j)
        × ((p : Entry K V → Bool) → in_both t p (clear_slot t j d') ≡ in_both t p d)
  unfolding in_both
  round-moves d d' j w inside same m =
      let cleared = entries-clear d.ht0.table j inside in
      (
        record {
          shape = record {
            first = record {
              slots = rw m.table (length-set d.ht0.table j [] ∙ w.first.slots ∙ sym m.size);
              mask = rw (m.mask, m.size) w.first.mask;
              counted = rw m.table (omega (arith, cleared, m.used, w.first.counted));
            };
            second = m.second;
            roomy = λ busy. (omega (arith, m.size, w.first.slots, inside), m.roomy);
          };
          index = refl;
          passed =
              rw m.table (omega (arith, cleared, same, entries-drop_clear d.ht0.table j inside));
        },
        λ p. rw m.table (omega (arith, m.moved p, counts-clear p d.ht0.table j inside)),
      )

  one-Round : (d : Tables K V) (i : ℕ) → IsMoving t d i → 0 < d.ht0.used → Round d i
  one-Round d i w left =
      let there : 0 < entries (drop i d.ht0.table) =
        omega (arith, w.passed, w.shape.first.counted) in
      let (j, found, inside, same, some_there) = next_filled-Fills d.ht0.table i there in
      let within : ltb i d.ht0.size ≡ true =
        ground (arith, entries-drop_inside d.ht0.table i there, w.shape.first.slots) in
      let m =
        move_chain-Moved t (get_or d.ht0.table j []) d
          (omega (arith, entries-clear d.ht0.table j inside, w.shape.first.counted)) w.shape.second
          (w.shape.roomy (rw w.index refl)).1 in
      let (next, kept) =
        round-moves d (move_chain t (get_or d.ht0.table j []) d) j w.shape inside (same ∙ w.passed)
          m in
      (j, rw within found, next, kept, omega (arith, m.used, some_there))

  -- How the rounds end: the entries are kept, and either all rounds were made and the dictionary is still
  -- moving, or the new table has taken the place of the old one, in which nothing was left.
  abbrev pub Kept : Tables K V → Tables K V × Bool → Type 0
  Kept d r =
      IsDict r.0
      × ((p : Entry K V → Bool) → in_both t p r.0 ≡ in_both t p d)
      × (((r.1 ≡ true) × ((i : ℕ) × IsMoving t r.0 i))
          ⊎ ((r.1 ≡ false) × (r.0.rehashidx ≡ none) × (r.0.ht1 ≡ reset_table)))

  abbrev pub Ends : ℕ → Tables K V → ℕ → Type 0
  Ends n d i =
      (r : Tables K V × Bool) × (rehash_loop t n d i ≡ returns r)
      × (d.ht0.used < n → r.1 ≡ false)
      × Kept d r

  finished-Kept : (d : Tables K V) → IsDict d → d.ht0.used ≡ 0 → Kept d (finished t d, false)
  unfolding in_both counts entries
  finished-Kept d w none_left = (
    record {
      first = w.second;
      second = record { slots = refl; mask = refl; counted = refl };
      roomy = λ busy. ground arith;
    },
    λ p. omega (arith, counts-le p d.ht0.table, w.first.counted, none_left),
    inr (refl, refl, refl),
  )

  pub rehash_loop-Ends : (n : ℕ) (d : Tables K V) (i : ℕ) → IsMoving t d i → Ends n d i
  unfolding rehash_loop
  rehash_loop-Ends zero d i w =
      ((d, true), refl, (λ h. absurd (omega arith)), (w.shape, λ p. refl, inl (refl, (i, w))))
  rehash_loop-Ends (suc n) d i w = elim (Bool-cases (d.ht0.used == 0)) [
    | inl done ↦ (
      (finished t d, false),
      rw (rehash_loop, done) refl,
      (λ h. refl),
      finished-Kept d w.shape (ground arith),
    )
    | inr left ↦
        let (j, goes, next, kept, fewer) = one-Round d i w (ground arith) in
        let (r, run, enough, later) = rehash_loop-Ends n (rehash_slot t j d) (suc j) next in
        let (shape, same, how) = later in
        (
          r,
          rw (rehash_loop, left, goes) run,
          (λ h. enough (omega arith)),
          (shape, λ p. same p ∙ kept p, how),
        )
  ]

module _ (l : RwLock) {K V : Type 0} (t : DictType K V) where
  open l use {unlocked, wrlock, unlock, write_locked}

  after_rounds-lock :
      (r : Tables K V × Bool)
      → after_rounds l t write_locked r
        ≡ returns
            (with_lock l t r.0 (if r.1 then unlocked else write_locked), (if r.1 then 1 else 0))
  after_rounds-lock (d, true) = rw l.unlock_write refl
  after_rounds-lock (d, false) = refl

  -- `dict_rehash` on an unlocked dictionary that is rehashing, with its shape and with no entry of the
  -- old table before `rehashidx`, returns for every number of rounds and reads nothing outside of the
  -- tables. Every test of entries holds of as many entries of the two tables together as before. It
  -- returns 1 with the lock released where all rounds were made, and the dictionary is as described
  -- before the call; else it returns 0 with the write lock held, the old table has been given up and
  -- the dictionary is not rehashing any more. With more rounds than the old table has entries, it returns
  -- 0.
  pub dict_rehash-Ends :
      (d : Tables K V) (i n : ℕ)
      → IsMoving t d i
      → (d' : Tables K V) × (all_made : Bool) × (dict_rehash l t (with_lock l t d unlocked) n
          ≡ returns (
            with_lock l t d' (if all_made then unlocked else write_locked),
            (if all_made then 1 else 0),
          ))
        × (d.ht0.used < n → all_made ≡ false)
        × Kept t d (d', all_made)
  unfolding dict_rehash
  dict_rehash-Ends d i n w =
      let (r, run, enough, kept) = rehash_loop-Ends t n d i w in
      (r.0, r.1, rw l.wrlock_free (rw w.index (rw run (after_rounds-lock r))), enough, kept)
