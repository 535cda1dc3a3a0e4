-- ===== src/Base/Text.antt =====
-- Literals as the bytes that C has.
use Prim.Native.Nat.{ℕ}
use Prim.Native.Char.{code}
use Prim.Native.String.{String}
use mathlib.Core.List.{List, [], ◌∷◌}

abbrev pub bytes : String → List ℕ
bytes (String.◌∷◌ letter text) = code letter ∷ bytes text
bytes String.[] = []
