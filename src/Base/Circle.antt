-- ===== src/Base/Circle.antt =====
-- Places on a circle: an index that goes round at a modulus.
use Prim.Native.Nat.{ℕ, ◌+◌, ◌-◌, ◌%◌, ◌<◌}
use mathlib.Core.Path.{◌≡◌, sym, ap, ◌∙◌}
use mathlib.Core.Logic.{◌≢◌}
use native.Mathlib.Omega.{arith}
use native.Mathlib.Nat.{mod-eq_of_lt, mod-eq-sub-mod, mod-add-mod, mod-lt}
use native.Mathlib.Decide.{dec_lt}

-- the place `k` steps behind the start
abbrev pub circle : ℕ → ℕ → ℕ → ℕ
circle modulus start k = (start + k) % modulus

pub circle_next : (m start k : ℕ) → (circle m start k + 1) % m ≡ circle m start (k + 1)
circle_next m start k = rw mod-add-mod (ap (λ (n : ℕ). n % m) (omega arith))

pub circle_back : (m start : ℕ) → start < m → circle m start m ≡ start
circle_back m start h =
    mod-eq-sub-mod {n = start + m} {m = m} (omega arith)
    ∙ mod-eq_of_lt {n = start + m - m} {m = m} (omega arith)
    ∙ omega arith

pub circle_ne : (m start k : ℕ) → start < m → 0 < k → k < m → circle m start k ≢ start
circle_ne m start k hs pos hk = elim (dec_lt (start + k) m) [
  | yes inside ↦ omega (arith, mod-eq_of_lt inside)
  | no over ↦ omega (
    arith,
    mod-eq-sub-mod {n = start + k} {m = m} (omega arith),
    mod-eq_of_lt {n = start + k - m} {m = m} (omega arith),
  )
]

pub circle_start : (m start : ℕ) → start < m → circle m start 0 ≡ start
circle_start m start h = mod-eq_of_lt (omega arith) ∙ omega arith

-- Every place is some steps behind the start.
pub circle_reaches :
    (m start pos : ℕ) → start < m → pos < m → (i : ℕ) × (i < m) × (circle m start i ≡ pos)
circle_reaches m start pos hs hp = elim (dec_lt pos start) [
  | no ahead ↦ (pos - start, omega arith, mod-eq_of_lt (omega arith) ∙ omega arith)
  | yes behind ↦ (
    pos + m - start,
    omega arith,
    mod-eq-sub-mod {n = start + (pos + m - start)} {m = m} (omega arith)
        ∙ mod-eq_of_lt {n = start + (pos + m - start) - m} {m = m} (omega arith)
        ∙ omega arith,
  )
]

-- Fewer steps than there are places do not come back to the same place.
pub circle_once : (n start i j : ℕ) → 0 < n → i < j → j < n → circle n start i ≢ circle n start j
circle_once n start i j pos_n less hj e =
    circle_ne n (circle n start i) (j - i) (mod-lt (start + i) pos_n) (omega arith) (omega arith)
      (mod-add-mod (start + i) n (j - i) ∙ ap (λ (k : ℕ). k % n) (omega arith) ∙ sym e)
