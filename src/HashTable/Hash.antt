-- ===== src/HashTable/Hash.antt =====
-- The hash of a string (hashtable.c): `crypttable_init` and `hashstring`. Words have 32 bits, and an `int`
-- of `crypttable` is the word that it becomes in the exclusive or.
use ostrichserver.Base.{
  ℕ, zero, suc, ◌+◌, ◌-◌, ◌*◌, ◌%◌, ◌^◌, ◌&&◌, List, [], ◌∷◌, bit_and, bit_or, bit_xor, leb,
  if◌then◌else◌, get_or, set, replicate,
}

-- `seed = (seed * 125 + 3) % 0x2AAAAB`
abbrev pub next_seed : ℕ → ℕ
next_seed seed = (seed * 125 + 3) % 2 ^ 32 % 0x2AAAAB

-- the seed and the table while `crypttable_init` runs
pub record Crypt : Type 0 where
  pub seed : ℕ
  pub table : List ℕ

-- the body of the inner loop at `index2`
unfoldable pub fill : Crypt → ℕ → Crypt
fill c index2 =
    let seed1 = next_seed c.seed in
    let seed2 = next_seed seed1 in
    let word = bit_or (bit_and seed1 0xFFFF * 2 ^ 16) (bit_and seed2 0xFFFF) in
    record { seed = seed2; table = set c.table index2 word }

-- the inner loop, with the rounds that are left
unfoldable pub fill_column : ℕ → Crypt → ℕ → Crypt
unfolding fill
fill_column zero c index2 = c
fill_column (suc rounds) c index2 = fill_column rounds (fill c index2) (index2 + 0x100)

-- the outer loop, with the rounds that are left
unfoldable pub fill_columns : ℕ → Crypt → ℕ → Crypt
unfolding fill_column
fill_columns zero c index1 = c
fill_columns (suc rounds) c index1 = fill_columns rounds (fill_column 5 c index1) (index1 + 1)

-- `crypttable_init` on the array that starts as zeros
unfoldable pub crypttable : List ℕ
unfolding fill_columns
crypttable = (fill_columns 0x100 (record { seed = 0x00100001; table = replicate 0x500 0 }) 0).table

-- `toupper` in the C locale
abbrev pub toupper : ℕ → ℕ
toupper c = if leb b'a' c && leb c b'z' then c - 32 else c

-- the loop of `hashstring`, with the bytes of the string before its NUL
unfoldable pub hash_loop : List ℕ → ℕ → ℕ → ℕ → List ℕ → ℕ
hash_loop crypt hashtype seed1 seed2 [] = seed1
hash_loop crypt hashtype seed1 seed2 (c ∷ key) =
    let ch = toupper c in
    let word = bit_xor (get_or crypt (hashtype * 2 ^ 8 + ch) 0) ((seed1 + seed2) % 2 ^ 32) in
    hash_loop crypt hashtype word ((ch + word + seed2 + seed2 * 2 ^ 5 + 3) % 2 ^ 32) key

-- `hashstring`, as the `uint32_t` that its callers keep
unfoldable pub hashstring : List ℕ → ℕ → ℕ
unfolding hash_loop crypttable
hashstring key hashtype = hash_loop crypttable hashtype 0x7FED7FED 0xEEEEEEEE key
