-- ===== src/Dict/Moving.antt =====
-- What rehashing does to the entries of a dictionary.
use ostrichserver.Base.{
  ℕ, zero, suc, ◌+◌, ◌<◌, ◌≤◌, Bool, List, [], ◌∷◌, some, ◌≡◌, refl, arith, if◌then◌else◌, length,
  get_or, set, drop,
}
use ostrichserver.Dict.Interface.{DictType}
use ostrichserver.Dict.Table.{Entry, Chain, Tables, slot, push}
use ostrichserver.Dict.Rehash.{less_one, next_filled, move_chain}
use ostrichserver.Dict.Slots.{entries, IsTable}
use ostrichserver.Dict.Lookup.{IsDict, slot-lt}
use ostrichserver.Dict.Adding.{push-IsTable}

-- How many elements of a list, and of a list of lists, pass a test.
unfoldable pub count : {A : Type 0} → (A → Bool) → List A → ℕ
count p [] = 0
count p (x ∷ xs) = (if p x then 1 else 0) + count p xs

unfoldable pub counts : {A : Type 0} → (A → Bool) → List (List A) → ℕ
unfolding count
counts p [] = 0
counts p (c ∷ cs) = count p c + counts p cs

module _ {A : Type 0} where
  counts-push :
      (p : A → Bool) (cs : List (List A)) (i : ℕ) (e : A)
      → i < length cs
      → counts p (set cs i (e ∷ get_or cs i [])) ≡ (if p e then 1 else 0) + counts p cs
  unfolding counts
  counts-push p [] i e h = absurd (omega arith)
  counts-push p (c ∷ cs) zero e h = omega arith
  counts-push p (c ∷ cs) (suc i) e h = omega (arith, counts-push p cs i e (omega arith))

  pub counts-clear :
      (p : A → Bool) (cs : List (List A)) (i : ℕ)
      → i < length cs
      → count p (get_or cs i []) + counts p (set cs i []) ≡ counts p cs
  unfolding counts
  counts-clear p [] i h = absurd (omega arith)
  counts-clear p (c ∷ cs) zero h = omega arith
  counts-clear p (c ∷ cs) (suc i) h = omega (arith, counts-clear p cs i (omega arith))

  pub entries-clear :
      (cs : List (List A)) (i : ℕ)
      → i < length cs
      → length (get_or cs i []) + entries (set cs i []) ≡ entries cs
  unfolding entries
  entries-clear [] i h = absurd (omega arith)
  entries-clear (c ∷ cs) zero h = omega arith
  entries-clear (c ∷ cs) (suc i) h = omega (arith, entries-clear cs i (omega arith))

  pub entries-drop_clear :
      (cs : List (List A)) (i : ℕ)
      → i < length cs
      → length (get_or cs i []) + entries (drop (suc i) (set cs i [])) ≡ entries (drop i cs)
  unfolding entries
  entries-drop_clear [] i h = absurd (omega arith)
  entries-drop_clear (c ∷ cs) zero h = omega arith
  entries-drop_clear (c ∷ cs) (suc i) h = omega (arith, entries-drop_clear cs i (omega arith))

  -- The search of a round finds a slot that has entries, and leaves none behind it.
  abbrev pub Fills : List (List A) → ℕ → Type 0
  Fills cs i =
      (j : ℕ) × (next_filled cs i ≡ some j)
      × (j < length cs)
      × (entries (drop j cs) ≡ entries (drop i cs))
      × (0 < length (get_or cs j []))

  pub next_filled-Fills : (cs : List (List A)) (i : ℕ) → 0 < entries (drop i cs) → Fills cs i
  unfolding entries next_filled
  next_filled-Fills [] zero h = absurd (omega arith)
  next_filled-Fills [] (suc i) h = absurd (omega arith)
  next_filled-Fills (c ∷ cs) (suc i) h =
      let (j, found, inside, same, some_there) = next_filled-Fills cs i h in
      (suc j, rw found refl, omega arith, same, some_there)
  next_filled-Fills ([] ∷ cs) zero h =
      let (j, found, inside, same, some_there) = next_filled-Fills cs zero (omega arith) in
      (suc j, rw found refl, omega arith, omega arith, some_there)
  next_filled-Fills ((e ∷ c) ∷ cs) zero h = (0, refl, omega arith, refl, omega arith)

module _ {K V : Type 0} (t : DictType K V) where
  -- What moving a chain `c` does: the entries of `c` go from the old table, whose count goes down, to the
  -- new one.
  pub record Moved (c : Chain K V) (d d' : Tables K V) : Type 0 where
    pub table : d'.ht0.table ≡ d.ht0.table
    pub size : d'.ht0.size ≡ d.ht0.size
    pub mask : d'.ht0.sizemask ≡ d.ht0.sizemask
    pub used : length c + d'.ht0.used ≡ d.ht0.used
    pub second : IsTable d'.ht1
    pub roomy : 0 < d'.ht1.size
    pub moved : (p : Entry K V → Bool) → counts p d'.ht1.table ≡ count p c + counts p d.ht1.table

  less_one-suc : (n : ℕ) → 0 < n → 1 + less_one n ≡ n
  less_one-suc zero h = absurd (omega arith)
  less_one-suc (suc n) h = omega arith

  pub move_chain-Moved :
      (c : Chain K V) (d : Tables K V)
      → length c ≤ d.ht0.used
      → IsTable d.ht1
      → 0 < d.ht1.size
      → Moved c d (move_chain t c d)
  unfolding move_chain count
  move_chain-Moved [] d enough v pos = record {
    table = refl;
    size = refl;
    mask = refl;
    used = omega arith;
    second = v;
    roomy = pos;
    moved = λ p. omega arith;
  }
  move_chain-Moved (e ∷ c) d enough v pos =
      let one = less_one-suc d.ht0.used (omega arith) in
      let m =
        move_chain-Moved c
          (record d {
            ht0 = record d.ht0 { used = less_one d.ht0.used };
            ht1 = push d.ht1 (slot t d.ht1 e.key) e;
          })
          (omega arith) (push-IsTable t d.ht1 e.key e v pos) pos in
      record {
        table = m.table;
        size = m.size;
        mask = m.mask;
        used = omega (arith, m.used);
        second = m.second;
        roomy = m.roomy;
        moved = λ p. omega (
          arith,
          m.moved p,
          counts-push p d.ht1.table (slot t d.ht1 e.key) e (slot-lt t d.ht1 e.key v pos),
        );
      }

  -- A dictionary in the middle of rehashing: no entry of the old table stands before `rehashidx`.
  pub record IsMoving (d : Tables K V) (i : ℕ) : Type 0 where
    pub shape : IsDict d
    pub index : d.rehashidx ≡ some i
    pub passed : entries (drop i d.ht0.table) ≡ entries d.ht0.table

  -- how many entries of both tables pass a test
  unfoldable pub in_both : (Entry K V → Bool) → Tables K V → ℕ
  in_both p d = counts p d.ht0.table + counts p d.ht1.table
