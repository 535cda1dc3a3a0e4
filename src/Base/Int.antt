-- ===== src/Base/Int.antt =====
-- Signed integers over the native numbers: lengths and differences that the program computes in
-- `int`, `ssize_t` or as a difference of pointers.
use Prim.Native.Nat.{ℕ, ◌-◌, ◌≤◌}
use mathlib.Core.Path.{◌≡◌}
use native.Mathlib.Omega.{arith}
use ostrichserver.Base.Tests.{leb, if◌then◌else◌}

-- `negsuc n` is -(n + 1).
pub data ℤ : Type 0 where
  pos : ℕ → ℤ
  negsuc : ℕ → ℤ

-- a - b, as an integer
abbrev pub sub_ℕ : ℕ → ℕ → ℤ
sub_ℕ a b = if leb b a then pos (a - b) else negsuc (b - a - 1)

pub sub_ℕ-eq-pos : (a b : ℕ) → b ≤ a → sub_ℕ a b ≡ pos (a - b)
sub_ℕ-eq-pos a b h = ground arith
