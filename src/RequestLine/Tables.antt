-- ===== src/RequestLine/Tables.antt =====
-- The two tables of the parser against plain descriptions: the method names, and the bytes of a URI
-- that need no check.
use ostrichserver.Base.{
  ℕ, ◌<◌, Bool, true, false, not, ◌&&◌, ◌||◌, List, [], ◌∷◌, ◌≡◌, refl, sym, ◌∙◌, arith, length,
  get_or, ◌==◌, if◌then◌else◌, holds_below, holds_below-at,
}
use ostrichserver.RequestLine.Codes
use ostrichserver.RequestLine.Types.{cr, lf}
use ostrichserver.RequestLine.Method.{
  method_3, method_4, method_5, method_6, method_7, method_8, method_9, method_switch,
}
use ostrichserver.RequestLine.Uri.{usual}
use ostrichserver.RequestLine.RoundTrip.{method_of}

abbrev same_bytes : List ℕ → List ℕ → Bool
same_bytes [] [] = true
same_bytes (x ∷ xs) (y ∷ ys) = x == y && same_bytes xs ys
same_bytes _ _ = false

-- two names are equal: as long as one another, and byte for byte
abbrev pub is_name : List ℕ → List ℕ → Bool
is_name xs ys = length xs == length ys && same_bytes xs ys

-- The names of the methods, each with its code.
abbrev pub known_methods : List (List ℕ × ℕ)
known_methods =
    (b'G' ∷ b'E' ∷ b'T' ∷ [], Codes.get)
    ∷ (b'P' ∷ b'U' ∷ b'T' ∷ [], Codes.put)
    ∷ (b'P' ∷ b'O' ∷ b'S' ∷ b'T' ∷ [], Codes.post)
    ∷ (b'C' ∷ b'O' ∷ b'P' ∷ b'Y' ∷ [], Codes.copy)
    ∷ (b'M' ∷ b'O' ∷ b'V' ∷ b'E' ∷ [], Codes.move)
    ∷ (b'L' ∷ b'O' ∷ b'C' ∷ b'K' ∷ [], Codes.lock)
    ∷ (b'H' ∷ b'E' ∷ b'A' ∷ b'D' ∷ [], Codes.head)
    ∷ (b'M' ∷ b'K' ∷ b'C' ∷ b'O' ∷ b'L' ∷ [], Codes.mkcol)
    ∷ (b'P' ∷ b'A' ∷ b'T' ∷ b'C' ∷ b'H' ∷ [], Codes.patch)
    ∷ (b'T' ∷ b'R' ∷ b'A' ∷ b'C' ∷ b'E' ∷ [], Codes.trace)
    ∷ (b'D' ∷ b'E' ∷ b'L' ∷ b'E' ∷ b'T' ∷ b'E' ∷ [], Codes.delete)
    ∷ (b'U' ∷ b'N' ∷ b'L' ∷ b'O' ∷ b'C' ∷ b'K' ∷ [], Codes.unlock)
    ∷ (b'O' ∷ b'P' ∷ b'T' ∷ b'I' ∷ b'O' ∷ b'N' ∷ b'S' ∷ [], Codes.options)
    ∷ (b'P' ∷ b'R' ∷ b'O' ∷ b'P' ∷ b'F' ∷ b'I' ∷ b'N' ∷ b'D' ∷ [], Codes.propfind)
    ∷ (b'P' ∷ b'R' ∷ b'O' ∷ b'P' ∷ b'P' ∷ b'A' ∷ b'T' ∷ b'C' ∷ b'H' ∷ [], Codes.proppatch)
    ∷ []

-- the code of a name in a table, 0 if it is not there
abbrev pub code_in : List (List ℕ × ℕ) → List ℕ → ℕ
code_in [] m = 0
code_in ((w, c) ∷ t) m = if is_name m w then c else code_in t m

abbrev Shorter : ℕ → List (List ℕ × ℕ) → Type 0
Shorter n [] = Unit
Shorter n ((w, c) ∷ t) = (length w < n) × Shorter n t

code_in_long : (t : List (List ℕ × ℕ)) (m : List ℕ) → Shorter (length m) t → code_in t m ≡ 0
code_in_long [] m h = refl
code_in_long ((w, c) ∷ t) m h = ground (arith, code_in_long t m h.1)

method_switch_long : (f : ℕ → ℕ) (n old : ℕ) → 9 < n → method_switch f n old ≡ old
unfolding method_switch
method_switch_long f n old h = ground arith

-- The switch on length and bytes, which skips a byte of "POST", "COPY", "MOVE" and "LOCK", finds the
-- code of the name, and 0 for every other name.
pub method_of-eq-code_in : (m : List ℕ) → method_of m ≡ code_in known_methods m
unfolding method_switch method_3 method_4 method_5 method_6 method_7 method_8 method_9
method_of-eq-code_in [] = refl
method_of-eq-code_in (c0 ∷ []) = refl
method_of-eq-code_in (c0 ∷ c1 ∷ []) = refl
method_of-eq-code_in (c0 ∷ c1 ∷ c2 ∷ []) = ground arith
method_of-eq-code_in (c0 ∷ c1 ∷ c2 ∷ c3 ∷ []) = ground arith
method_of-eq-code_in (c0 ∷ c1 ∷ c2 ∷ c3 ∷ c4 ∷ []) = ground arith
method_of-eq-code_in (c0 ∷ c1 ∷ c2 ∷ c3 ∷ c4 ∷ c5 ∷ []) = ground arith
method_of-eq-code_in (c0 ∷ c1 ∷ c2 ∷ c3 ∷ c4 ∷ c5 ∷ c6 ∷ []) = ground arith
method_of-eq-code_in (c0 ∷ c1 ∷ c2 ∷ c3 ∷ c4 ∷ c5 ∷ c6 ∷ c7 ∷ []) = ground arith
method_of-eq-code_in (c0 ∷ c1 ∷ c2 ∷ c3 ∷ c4 ∷ c5 ∷ c6 ∷ c7 ∷ c8 ∷ []) = ground arith
method_of-eq-code_in (c0 ∷ c1 ∷ c2 ∷ c3 ∷ c4 ∷ c5 ∷ c6 ∷ c7 ∷ c8 ∷ c9 ∷ m) =
    let long = (c0 ∷ c1 ∷ c2 ∷ c3 ∷ c4 ∷ c5 ∷ c6 ∷ c7 ∷ c8 ∷ c9 ∷ m) in
    method_switch_long (λ k. get_or long k 0) (length long) 0 (omega arith)
    ∙ sym (code_in_long known_methods long (omega arith))

-- the bytes that have a case of their own in one of the URI states
abbrev pub special : ℕ → Bool
special c =
    c == 0
    || (c == lf
        || (c == cr
            || (c == b' '
                || (c == b'#'
                    || (c == b'%' || (c == b'+' || (c == b'.' || (c == b'/' || c == b'?'))))))))

agree : Bool → Bool → Bool
agree true b = b
agree false b = not b

agree-eq : (a b : Bool) → agree a b ≡ true → a ≡ b
unfolding agree
agree-eq true b h = ground arith
agree-eq false b h = ground arith

usual_table : holds_below (λ c. agree (usual c) (not (special c))) 256 ≡ true
unfolding holds_below usual agree
usual_table = refl

-- The bit table `usual` marks exactly the bytes that no URI state treats in a case of its own.
pub usual-eq-special : (c : ℕ) → c < 256 → usual c ≡ not (special c)
usual-eq-special c h = agree-eq (usual c) (not (special c)) (holds_below-at _ 256 c h usual_table)
