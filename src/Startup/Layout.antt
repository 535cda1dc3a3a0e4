-- ===== src/Startup/Layout.antt =====
-- What `os_init_proctitle` finds where the words and the environment of a process lie one behind the other.
use mathlib.Core.List.{append-nil, append_assoc}
use ostrichserver.Base.{
  ℕ, ◌+◌, ◌-◌, true, List, [], ◌∷◌, ◌++◌, ◌≡◌, refl, ap, ◌∙◌, arith, ◌==◌, length, length-append,
}
use ostrichserver.Startup.Title.{
  Text, environ_size, argv_end, Stands, copied, environ_end, os_init_proctitle,
}

-- Strings that lie one behind the other from an address on, each with its NUL.
abbrev pub Contiguous : ℕ → List Text → Type 0
Contiguous start [] = Unit
Contiguous start (t ∷ ts) = (t.address ≡ start) × Contiguous (start + (length t.content + 1)) ts

-- the strings with their NULs
abbrev pub joined : List Text → List ℕ
joined [] = []
joined (t ∷ ts) = t.content ++ 0 ∷ joined ts

-- where the strings stand in the block
abbrev pub offsets : ℕ → List Text → List Stands
offsets k [] = []
offsets k (t ∷ ts) = copied k ∷ offsets (k + (length t.content + 1)) ts

pub length-joined : (ts : List Text) → length (joined ts) ≡ environ_size ts
unfolding environ_size
length-joined [] = refl
length-joined (t ∷ ts) = omega (arith, length-joined ts, length-append t.content (0 ∷ joined ts))

argv_end-Contiguous :
    (ts : List Text) (start : ℕ) → Contiguous start ts → argv_end ts start ≡ start + environ_size ts
unfolding argv_end environ_size
argv_end-Contiguous [] start c = omega arith
argv_end-Contiguous (t ∷ ts) start c =
    let here : (start == t.address) ≡ true = ground arith in
    let next : t.address + length t.content + 1 ≡ start + (length t.content + 1) = omega arith in
    rw (here, next) (argv_end-Contiguous ts (start + (length t.content + 1)) c.1 ∙ omega arith)

environ_end-Contiguous :
    (ts : List Text) (start : ℕ) (block : List ℕ) (moved : List Stands)
    → Contiguous start ts
    → environ_end ts start block moved
      ≡ (start + environ_size ts, block ++ joined ts, moved ++ offsets (length block) ts)
unfolding environ_end environ_size
environ_end-Contiguous [] start block moved c =
    let e : start + 0 ≡ start = omega arith in rw (e, append-nil block, append-nil moved) refl
environ_end-Contiguous (t ∷ ts) start block moved c =
    let here : (start == t.address) ≡ true = ground arith in
    let next : t.address + length t.content + 1 ≡ start + (length t.content + 1) = omega arith in
    let grown : length (block ++ (t.content ++ 0 ∷ [])) ≡ length block + (length t.content + 1) =
      omega (arith, length-append block (t.content ++ 0 ∷ []), length-append t.content (0 ∷ [])) in
    let total : start + (length t.content + 1) + environ_size ts
        ≡ start + (length t.content + 1 + environ_size ts) =
      omega arith in
    let bytes_eq : (block ++ (t.content ++ 0 ∷ [])) ++ joined ts
        ≡ block ++ (t.content ++ 0 ∷ joined ts) =
      append_assoc block (t.content ++ 0 ∷ []) (joined ts)
      ∙ ap (λ (xs : List ℕ). block ++ xs) (append_assoc t.content (0 ∷ []) (joined ts)) in
    let places_eq : (moved ++ copied (length block) ∷ [])
          ++ offsets (length block + (length t.content + 1)) ts
        ≡ moved ++ offsets (length block) (t ∷ ts) =
      append_assoc moved (copied (length block) ∷ [])
        (offsets (length block + (length t.content + 1)) ts) in
    let rest =
      environ_end-Contiguous ts (start + (length t.content + 1)) (block ++ (t.content ++ 0 ∷ []))
        (moved ++ copied (length block) ∷ []) c.1 in
    rw (here, next) (rest ∙ rw (grown, total, bytes_eq, places_eq) refl)

-- Where the words of the command line lie one behind the other from the first on, and the environment
-- behind them, `os_init_proctitle` finds the last byte of the environment as the end of the memory for the
-- title, and moves every string of the environment to a block that it fills exactly, each with its NUL and
-- at the place where the string starts.
pub os_init_proctitle-Contiguous :
    (first : ℕ) (argv environ : List Text)
    → Contiguous first argv
    → Contiguous (first + environ_size argv) environ
    → (os_init_proctitle first argv environ
        ≡ (first + environ_size argv + environ_size environ - 1, joined environ, offsets 0 environ))
      × (length (joined environ) ≡ environ_size environ)
unfolding os_init_proctitle
os_init_proctitle-Contiguous first argv environ words vars =
    let found = argv_end-Contiguous argv first words in
    let moved_eq = environ_end-Contiguous environ (first + environ_size argv) [] [] vars in
    (rw (found, moved_eq) refl, length-joined environ)
