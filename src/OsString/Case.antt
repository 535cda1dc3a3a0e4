-- ===== src/OsString/Case.antt =====
-- `os_tolower` and `os_strlow`.
use ostrichserver.Base.{
  ℕ, zero, suc, ◌+◌, Bool, ◌&&◌, List, [], ◌∷◌, map, ◌≡◌, refl, bit_or, leb, ◌==◌, if◌then◌else◌,
  take, holds_below, true, ap,
}

-- `c >= 'A' && c <= 'Z'`
abbrev pub is_upper : ℕ → Bool
is_upper c = leb b'A' c && leb c b'Z'

unfoldable pub os_tolower : ℕ → ℕ
os_tolower c = if is_upper c then bit_or c 0x20 else c

-- `n` bytes of `src` written to `dst`, which is returned; both hold `n` bytes or more.
unfoldable pub os_strlow : List ℕ → ℕ → List ℕ
os_strlow src zero = []
os_strlow [] (suc n) = []
os_strlow (c ∷ src) (suc n) = os_tolower c ∷ os_strlow src n

-- in a table over the bytes: the letter is moved by 32, and no capital is left
tolower_table : holds_below (λ c. os_tolower c == (if is_upper c then c + 32 else c)) 256 ≡ true
unfolding holds_below os_tolower
tolower_table = refl

pub os_strlow-eq-map : (src : List ℕ) (n : ℕ) → os_strlow src n ≡ map os_tolower (take n src)
unfolding os_strlow
os_strlow-eq-map src zero = refl
os_strlow-eq-map [] (suc n) = refl
os_strlow-eq-map (c ∷ src) (suc n) = ap (◌∷◌ (os_tolower c)) (os_strlow-eq-map src n)
