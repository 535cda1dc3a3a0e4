-- ===== src/Config/Tokens.antt =====
-- `strtok_r` of the C library on strings, and the lines and words that config.c cuts with it.
use ostrichserver.Base.{
  ℕ, Bool, false, ◌||◌, List, [], ◌∷◌, ◌++◌, Option, none, some, ◌==◌, if◌then◌else◌,
}

-- whether a byte is one of the delimiters
unfoldable pub among : List ℕ → ℕ → Bool
among [] c = false
among (d ∷ ds) c = (c == d) || among ds c

-- the delimiters at the head of a string, and what is behind them
unfoldable pub delimiters : List ℕ → List ℕ → List ℕ
unfolding among
delimiters ds [] = []
delimiters ds (c ∷ s) = let rest = delimiters ds s in if among ds c then c ∷ rest else []

unfoldable pub behind : List ℕ → List ℕ → List ℕ
unfolding among
behind ds [] = []
behind ds (c ∷ s) = let rest = behind ds s in if among ds c then rest else c ∷ s

-- the bytes before the first delimiter, and the string behind that delimiter
unfoldable pub before : List ℕ → List ℕ → List ℕ
unfolding among
before ds [] = []
before ds (c ∷ s) = let rest = before ds s in if among ds c then [] else c ∷ rest

unfoldable pub after : List ℕ → List ℕ → List ℕ
unfolding among
after ds [] = []
after ds (c ∷ s) = let rest = after ds s in if among ds c then s else rest

abbrev pub unless_empty : List ℕ → Option (List ℕ)
unless_empty [] = none
unless_empty (c ∷ s) = some (c ∷ s)

-- `strtok_r`: the token unless it is NULL, and the string at which the next call goes on
abbrev pub strtok : List ℕ → List ℕ → Option (List ℕ) × List ℕ
strtok ds s = (unless_empty (before ds (behind ds s)), after ds (behind ds s))

abbrev pub newline : List ℕ
newline = 10 ∷ []

abbrev pub blanks : List ℕ
blanks = b' ' ∷ 9 ∷ []

-- `iter_to_next_line`: the line up to the NUL that `strtok_r` writes, with the empty lines before it,
-- and the rest of the file
unfoldable pub next_line : List ℕ → List ℕ × List ℕ
unfolding delimiters behind before after
next_line nextln = (
  delimiters newline nextln ++ before newline (behind newline nextln),
  after newline (behind newline nextln),
)
