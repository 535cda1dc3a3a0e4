-- ===== src/Dict/Hashes.antt =====
-- The hash functions of dict.c and its comparison of strings.
use ostrichserver.Base.{
  ℕ, ◌+◌, ◌-◌, ◌*◌, ◌/◌, ◌%◌, ◌^◌, Bool, true, false, not, ◌&&◌, List, [], ◌∷◌, bit_xor, leb, ◌==◌,
  if◌then◌else◌, length,
}

abbrev pub dict_hash_function_seed : ℕ
dict_hash_function_seed = 5381

-- a product of two `uint32_t`
abbrev times : ℕ → ℕ → ℕ
times a b = a * b % 2 ^ 32

-- `k *= m; k ^= k >> r; k *= m; h *= m; h ^= k`
abbrev pub mix : ℕ → ℕ → ℕ
mix h k =
    let k' = times k 0x5bd1e995 in
    bit_xor (times h 0x5bd1e995) (times (bit_xor k' (k' / 2 ^ 24)) 0x5bd1e995)

-- the loop over four bytes at a time, read with the first byte lowest, and the switch over the rest
unfoldable pub gen_loop : List ℕ → ℕ → ℕ
gen_loop [] h = h
gen_loop (a ∷ []) h = times (bit_xor h a) 0x5bd1e995
gen_loop (a ∷ b ∷ []) h = times (bit_xor (bit_xor h (b * 2 ^ 8)) a) 0x5bd1e995
gen_loop (a ∷ b ∷ c ∷ []) h =
    times (bit_xor (bit_xor (bit_xor h (c * 2 ^ 16)) (b * 2 ^ 8)) a) 0x5bd1e995
gen_loop (a ∷ b ∷ c ∷ e ∷ key) h = gen_loop key (mix h (a + b * 2 ^ 8 + c * 2 ^ 16 + e * 2 ^ 24))

-- `h ^= h >> 13; h *= m; h ^= h >> 15`
abbrev pub avalanche : ℕ → ℕ
avalanche h = let h' = times (bit_xor h (h / 2 ^ 13)) 0x5bd1e995 in bit_xor h' (h' / 2 ^ 15)

-- `dict_gen_key` of the bytes of a key
unfoldable pub dict_gen_key : List ℕ → ℕ
unfolding gen_loop
dict_gen_key key = avalanche (gen_loop key (bit_xor dict_hash_function_seed (length key)))

-- `tolower` in the C locale
abbrev pub tolower : ℕ → ℕ
tolower c = if leb b'A' c && leb c b'Z' then c + 32 else c

-- the loop of `dict_casestring_key`
unfoldable pub casestring_loop : List ℕ → ℕ → ℕ
casestring_loop [] hash = hash
casestring_loop (c ∷ buf) hash =
    casestring_loop buf ((hash * 2 ^ 5 % 2 ^ 32 + hash + tolower c) % 2 ^ 32)

-- `dict_casestring_key` of the `len` bytes of `buf`
unfoldable pub dict_casestring_key : List ℕ → ℕ
unfolding casestring_loop
dict_casestring_key buf = casestring_loop buf dict_hash_function_seed

-- `~x` of an unsigned int
abbrev not32 : ℕ → ℕ
not32 x = 2 ^ 32 - 1 - x

-- `dict_int_key`, one step for each line
unfoldable pub dict_int_key : ℕ → ℕ
dict_int_key key =
    let a = (key + not32 (key * 2 ^ 15 % 2 ^ 32)) % 2 ^ 32 in
    let b = bit_xor a (a / 2 ^ 10) in
    let c = (b + b * 2 ^ 3) % 2 ^ 32 in
    let e = bit_xor c (c / 2 ^ 6) in
    let f = (e + not32 (e * 2 ^ 11 % 2 ^ 32)) % 2 ^ 32 in bit_xor f (f / 2 ^ 16)

-- whether `strncmp` gives a number other than 0, on as many bytes as both lists have
unfoldable pub strncmp_differs : List ℕ → List ℕ → Bool
strncmp_differs [] ys = false
strncmp_differs (x ∷ xs) [] = false
strncmp_differs (x ∷ xs) (y ∷ ys) =
    let rest = strncmp_differs xs ys in
    if not (x == y) then true else if x == 0 then false else rest

-- whether `dict_string_key_compare` gives a number other than 0
unfoldable pub dict_string_key_compare : List ℕ → List ℕ → Bool
unfolding strncmp_differs
dict_string_key_compare k1 k2 = if not (length k1 == length k2) then true else strncmp_differs k1 k2
