-- ===== src/OsString/Search.antt =====
-- `os_strncasecmp`, `os_strstrn` and `os_strcasestrn`. A string is the list of the bytes from a pointer
-- to the NUL that ends it; a read at the end of the list gives that NUL.
use ostrichserver.Base.{
  ℕ, zero, suc, ◌+◌, ◌-◌, ◌%◌, ◌^◌, Bool, true, ◌&&◌, Option, none, some, List, [], ◌∷◌, leb, ◌==◌,
  if◌then◌else◌,
}
use ostrichserver.OsString.Case.{os_tolower}

-- `*s` and `s + 1`
abbrev pub first : List ℕ → ℕ
first [] = 0
first (c ∷ s) = c

abbrev pub rest : List ℕ → List ℕ
rest [] = []
rest (c ∷ s) = s

-- `strncmp(s1, s2, n) == 0`
unfoldable pub same_start : List ℕ → List ℕ → ℕ → Bool
same_start s1 s2 zero = true
same_start s1 s2 (suc n) =
    first s1 == first s2 && (if first s1 == 0 then true else same_start (rest s1) (rest s2) n)

-- The difference of two bytes as an `os_uint_t`.
abbrev pub byte_difference : ℕ → ℕ → ℕ
byte_difference c1 c2 = (c1 + 2 ^ 32 - c2) % 2 ^ 32

unfoldable pub os_strncasecmp : List ℕ → List ℕ → ℕ → ℕ
unfolding os_tolower
os_strncasecmp s1 s2 zero = 0
os_strncasecmp s1 s2 (suc n) =
    let c1 = os_tolower (first s1) in
    let c2 = os_tolower (first s2) in
    let more = os_strncasecmp (rest s1) (rest s2) n in
    if c1 == c2 then (if c1 == 0 then 0 else more) else byte_difference c1 c2

-- The two loops of `os_strstrn`, with the distance of the pointer from the start of the string; `none` is
-- NULL.
unfoldable pub strstrn_loop : List ℕ → ℕ → ℕ → List ℕ → ℕ → Option ℕ
unfolding same_start
strstrn_loop [] at c2 s2 n = none
strstrn_loop (c1 ∷ s1) at c2 s2 n =
    let next = strstrn_loop s1 (at + 1) c2 s2 n in
    if c1 == 0 then none else if c1 == c2 && same_start s1 s2 n then some at else next

unfoldable pub os_strstrn : List ℕ → List ℕ → ℕ → Option ℕ
unfolding strstrn_loop
os_strstrn s1 s2 n = strstrn_loop s1 0 (first s2) (rest s2) n

-- A `char`, which has a sign, as an `os_uint_t`
abbrev pub widened : ℕ → ℕ
widened c = if leb 128 c then c + (2 ^ 32 - 256) else c

-- The two loops of `os_strcasestrn`.
unfoldable pub strcasestrn_loop : List ℕ → ℕ → ℕ → List ℕ → ℕ → Option ℕ
unfolding os_strncasecmp os_tolower
strcasestrn_loop [] at c2 s2 n = none
strcasestrn_loop (c1 ∷ s1) at c2 s2 n =
    let next = strcasestrn_loop s1 (at + 1) c2 s2 n in
    if c1 == 0
    then none
    else if os_tolower c1 == c2 && os_strncasecmp s1 s2 n == 0
    then some at
    else next

unfoldable pub os_strcasestrn : List ℕ → List ℕ → ℕ → Option ℕ
unfolding strcasestrn_loop os_tolower
os_strcasestrn s1 s2 n = strcasestrn_loop s1 0 (os_tolower (widened (first s2))) (rest s2) n

-- `os_strlchr`, with the bytes from `p` up to `last`
unfoldable pub os_strlchr : List ℕ → ℕ → ℕ → Option ℕ
os_strlchr [] at c = none
os_strlchr (x ∷ p) at c = let next = os_strlchr p (at + 1) c in if x == c then some at else next
