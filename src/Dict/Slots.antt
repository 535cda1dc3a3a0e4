-- ===== src/Dict/Slots.antt =====
-- Slots lie inside a table; what a write to one slot changes; the sizes that a table is given.
use Prim.Native.Nat.{min, digits, bit_and-bitwise}
use native.Mathlib.Nat.{pow-suc}
use ostrichserver.Base.{
  ℕ, zero, suc, ◌+◌, ◌-◌, ◌*◌, ◌/◌, ◌^◌, ◌<◌, ◌≤◌, false, List, [], ◌∷◌, some, ◌≡◌, ◌≢◌, ◌⊎◌, inl,
  inr, refl, arith, bit_and, leb, length, get_or, set, replicate, length-replicate, Bool-cases,
}
use ostrichserver.Dict.Table.{Dictht, empty_table, doubling, next_power}

masked-le : (fuel a b : ℕ) → digits (λ x. zero) min fuel a b ≤ b
masked-le zero a b = omega arith
masked-le (suc fuel) zero b = omega arith
masked-le (suc fuel) (suc a) b = omega (arith, masked-le fuel (suc a / 2) (b / 2))

pub bit_and-le : (a b : ℕ) → bit_and a b ≤ b
bit_and-le a b = omega (arith, bit_and-bitwise a b, masked-le a a b)

module _ {A : Type 0} where
  pub get_or-set_self :
      (xs : List A) (i : ℕ) (v d : A) → i < length xs → get_or (set xs i v) i d ≡ v
  get_or-set_self [] i v d h = absurd (omega arith)
  get_or-set_self (x ∷ xs) zero v d h = refl
  get_or-set_self (x ∷ xs) (suc i) v d h = get_or-set_self xs i v d (omega arith)

  pub get_or-set_ne :
      (xs : List A) (i j : ℕ) (v d : A) → i ≢ j → get_or (set xs i v) j d ≡ get_or xs j d
  get_or-set_ne [] i j v d h = refl
  get_or-set_ne (x ∷ xs) zero zero v d h = absurd (h refl)
  get_or-set_ne (x ∷ xs) zero (suc j) v d h = refl
  get_or-set_ne (x ∷ xs) (suc i) zero v d h = refl
  get_or-set_ne (x ∷ xs) (suc i) (suc j) v d h = get_or-set_ne xs i j v d (omega arith)

  pub get_or-replicate : (n i : ℕ) (d : A) → get_or (replicate n d) i d ≡ d
  get_or-replicate zero i d = refl
  get_or-replicate (suc n) zero d = refl
  get_or-replicate (suc n) (suc i) d = get_or-replicate n i d

-- The number of entries in the slots.
unfoldable pub entries : {A : Type 0} → List (List A) → ℕ
entries [] = 0
entries (c ∷ cs) = length c + entries cs

pub entries-replicate : (A : Type 0) (n : ℕ) → entries {A = A} (replicate n []) ≡ 0
unfolding entries
entries-replicate A zero = refl
entries-replicate A (suc n) = omega (arith, entries-replicate A n)

pub entries-push :
    {A : Type 0} (cs : List (List A)) (i : ℕ) (e : A)
    → i < length cs
    → entries (set cs i (e ∷ get_or cs i [])) ≡ entries cs + 1
unfolding entries
entries-push [] i e h = absurd (omega arith)
entries-push (c ∷ cs) zero e h = omega arith
entries-push (c ∷ cs) (suc i) e h = omega (arith, entries-push cs i e (omega arith))

-- The shape of a table: as many slots as its size says, the mask that goes with it, and as many entries
-- as it counts.
pub record IsTable {K V : Type 0} (h : Dictht K V) : Type 0 where
  pub slots : length h.table ≡ h.size
  pub mask : h.sizemask ≡ h.size - 1
  pub counted : entries h.table ≡ h.used

pub empty_table-IsTable : {K V : Type 0} (n : ℕ) → IsTable {K = K} {V = V} (empty_table n)
empty_table-IsTable n = record {
  slots = length-replicate n [];
  mask = refl;
  counted = entries-replicate _ n;
}

doubling-bounds :
    (fuel size i : ℕ)
    → 0 < i
    → size ≤ i * 2 ^ fuel
    → (i < 2 * size) ⊎ (i ≡ 100)
    → (n : ℕ) × (doubling (suc fuel) size i ≡ some n)
      × (size ≤ n)
      × (i ≤ n)
      × ((n < 2 * size) ⊎ (n ≡ 100))
unfolding doubling
doubling-bounds zero size i hi hs hb = (i, ground arith, omega arith, omega arith, hb)
doubling-bounds (suc fuel) size i hi hs hb = elim (Bool-cases (leb size i)) [
  | inl stop ↦ (i, rw stop, ground arith, omega arith, hb)
  | inr more ↦
      let (n, run, above, from_i, bound) =
        doubling-bounds fuel size (i * 2) (omega arith) (omega (arith, rw pow-suc at hs))
          (inl (ground arith)) in
      (n, rw more run, above, omega arith, bound)
]

-- The doubling from 100 ends within its fuel for every size below `LONG_MAX`: it returns a number that
-- is at least the size and at least 100, that fits 64 bits, and that is less than twice the size
-- unless it is 100.
pub next_power-bounds :
    (size : ℕ)
    → size < 2 ^ 63 - 1
    → (n : ℕ) × (next_power size ≡ some n)
      × (size ≤ n)
      × (100 ≤ n)
      × (n < 2 ^ 64)
      × ((n < 2 * size) ⊎ (n ≡ 100))
unfolding next_power
next_power-bounds size h =
    let (n, run, above, least, bound) =
      doubling-bounds 63 size 100 (omega arith) (omega arith) (inr refl) in
    let small : leb (2 ^ 63 - 1) size ≡ false = ground arith in
    (n, rw small run, above, least, omega arith, bound)
