-- ===== src/OsString/Folding.antt =====
-- Comparison and search without regard to case.
use ostrichserver.Base.{
  ℕ, zero, suc, ◌+◌, ◌<◌, ◌≡◌, refl, Bool, true, not, ◌&&◌, List, [], ◌∷◌, map, arith, leb, ◌==◌,
  if◌then◌else◌, holds_below, holds_below-at,
}
use ostrichserver.OsString.Case.{os_tolower}
use ostrichserver.OsString.Search.{
  first, rest, same_start, byte_difference, os_strncasecmp, strstrn_loop, os_strstrn,
  strcasestrn_loop, os_strcasestrn, widened,
}

-- Every byte is below 256.
abbrev pub IsBytes : List ℕ → Type 0
IsBytes [] = Unit
IsBytes (c ∷ s) = (c < 256) × IsBytes s

abbrev pub lower : List ℕ → List ℕ
lower = map os_tolower

lower_byte_table :
    holds_below
      (λ c. leb (os_tolower c) 255 && (if os_tolower c == 0 then c == 0 else not (c == 0)))
      256
    ≡ true
unfolding holds_below os_tolower
lower_byte_table = refl

pub lower_byte : (c : ℕ) → c < 256 → (os_tolower c < 256) × ((os_tolower c == 0) ≡ (c == 0))
lower_byte c h = ground (
  arith,
  holds_below-at
      (λ c. leb (os_tolower c) 255 && (if os_tolower c == 0 then c == 0 else not (c == 0))) 256 c h
      lower_byte_table,
)

first-lower : (s : List ℕ) → first (lower s) ≡ os_tolower (first s)
unfolding os_tolower
first-lower [] = refl
first-lower (c ∷ s) = refl

rest-lower : (s : List ℕ) → rest (lower s) ≡ lower (rest s)
rest-lower [] = refl
rest-lower (c ∷ s) = refl

first_byte : (s : List ℕ) → IsBytes s → first s < 256
first_byte [] b = omega arith
first_byte (c ∷ s) b = b.0

rest-IsBytes : (s : List ℕ) → IsBytes s → IsBytes (rest s)
rest-IsBytes [] b = b
rest-IsBytes (c ∷ s) b = b.1

one_byte :
    (a b m : ℕ) (q : Bool)
    → a < 256
    → b < 256
    → (m == 0) ≡ q
    → ((if a == b then (if a == 0 then 0 else m) else byte_difference a b) == 0)
      ≡ (a == b && (if a == 0 then true else q))
one_byte a b m q ha hb e = rw (← e) (ground arith)

-- `os_strncasecmp` gives 0 exactly when the strings in lower case have the same start.
pub os_strncasecmp-eq :
    (s1 s2 : List ℕ) (n : ℕ)
    → IsBytes s1
    → IsBytes s2
    → (os_strncasecmp s1 s2 n == 0) ≡ same_start (lower s1) (lower s2) n
unfolding os_strncasecmp same_start
os_strncasecmp-eq s1 s2 zero b1 b2 = refl
os_strncasecmp-eq s1 s2 (suc n) b1 b2 = rw (first-lower s1) (
    rw (first-lower s2) (
      rw (rest-lower s1) (
        rw (rest-lower s2) (
          one_byte (os_tolower (first s1)) (os_tolower (first s2))
            (os_strncasecmp (rest s1) (rest s2) n)
            (same_start (lower (rest s1)) (lower (rest s2)) n)
            (lower_byte (first s1) (first_byte s1 b1)).0
            (lower_byte (first s2) (first_byte s2 b2)).0
            (os_strncasecmp-eq (rest s1) (rest s2) n (rest-IsBytes s1 b1) (rest-IsBytes s2 b2))))))

strcasestrn_loop-eq :
    (s : List ℕ) (at c : ℕ) (w : List ℕ) (n : ℕ)
    → IsBytes s
    → IsBytes w
    → strcasestrn_loop s at c w n ≡ strstrn_loop (lower s) at c (lower w) n
unfolding strcasestrn_loop strstrn_loop
strcasestrn_loop-eq [] at c w n bs bw = refl
strcasestrn_loop-eq (x ∷ s) at c w n bs bw =
    rw (strcasestrn_loop-eq s (at + 1) c w n bs.1 bw)
      (rw (os_strncasecmp-eq s w n bs.1 bw) (rw (lower_byte x bs.0).1 refl))

widened_ascii : (c : ℕ) → c < 128 → widened c ≡ c
widened_ascii c h = ground arith

-- A search without regard to case is the search in lower case: `os_strcasestrn` returns what
-- `os_strstrn` would return for the string and the word in lower case, NULL included, for all strings and
-- words of bytes whose word starts with an ASCII byte, and any number of bytes to compare.
pub os_strcasestrn-eq-lower :
    (s w : List ℕ) (n : ℕ)
    → IsBytes s
    → IsBytes w
    → first w < 128
    → os_strcasestrn s w n ≡ os_strstrn (lower s) (lower w) n
unfolding os_strcasestrn os_strstrn
os_strcasestrn-eq-lower s w n bs bw ascii = rw (widened_ascii (first w) ascii) (
    rw (first-lower w) (
      rw (rest-lower w)
        (strcasestrn_loop-eq s 0 (os_tolower (first w)) (rest w) n bs (rest-IsBytes w bw))))
