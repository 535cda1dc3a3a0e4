-- ===== src/AtomicList/Word.antt =====
-- The word at the head of a list: a pointer in the lower 48 bits and a version in the upper 16, in the
-- form for x86-64. A `|` of two numbers with no bit in common is a sum.
use ostrichserver.Base.{ℕ, ◌+◌, ◌-◌, ◌*◌, ◌/◌, ◌%◌, ◌^◌, ◌<◌, ◌≡◌, true, arith, ltb, if◌then◌else◌}

-- `<<` and `>>` on an `intptr_t`, as 64 bits
abbrev pub shl : ℕ → ℕ → ℕ
shl x k = x * 2 ^ k % 2 ^ 64

abbrev pub asr : ℕ → ℕ → ℕ
asr x k = if ltb x (2 ^ 63) then x / 2 ^ k else x / 2 ^ k + (2 ^ 64 - 2 ^ (64 - k))

-- `~`, and subtraction of 1
abbrev pub complement : ℕ → ℕ
complement x = 2 ^ 64 - 1 - x

abbrev pub minus_one : ℕ → ℕ
minus_one x = (x + 2 ^ 64 - 1) % 2 ^ 64

-- `ALPOINTER`
unfoldable pub al_pointer : ℕ → ℕ
al_pointer x = asr (shl x 16) 16 + shl (asr (complement (minus_one (asr (shl x 16) 63))) 48) 48

-- `ALVERSION`
unfoldable pub al_version : ℕ → ℕ
al_version x = asr x 48

-- `SET_ATOMICLIST_POINTER_VERSION`
unfoldable pub set_pointer_version : ℕ → ℕ → ℕ
set_pointer_version p v = p % 2 ^ 48 + shl (v % 2 ^ 16) 48

-- a pointer to user memory that is not NULL
abbrev pub IsAddress : ℕ → Type 0
IsAddress p = (0 < p) × (p < 2 ^ 47)

-- Round trip. The word made of a pointer to user memory, NULL included, and a version gives back the
-- pointer, and the version in its 16 bits.
pub word-parts :
    (p v : ℕ)
    → p < 2 ^ 47
    → (al_pointer (set_pointer_version p v) ≡ p)
      × (al_version (set_pointer_version p v) % 2 ^ 16 ≡ v % 2 ^ 16)
unfolding al_pointer al_version set_pointer_version
word-parts p v h =
    let version : shl (v % 2 ^ 16) 48 ≡ v % 2 ^ 16 * 2 ^ 48 = omega arith in
    let low : p % 2 ^ 48 ≡ p = omega arith in
    let moved : shl (p + v % 2 ^ 16 * 2 ^ 48) 16 ≡ p * 2 ^ 16 = omega arith in
    let positive : ltb (p * 2 ^ 16) (2 ^ 63) ≡ true = ground arith in
    let top : p * 2 ^ 16 / 2 ^ 63 ≡ 0 = omega arith in
    (
      rw low (rw version (rw moved (rw positive (rw top (omega arith))))),
      rw low (rw version (ground arith)),
    )

-- the pointer of NULL
pub null-pointer : (v : ℕ) → al_pointer (set_pointer_version 0 v) ≡ 0
null-pointer v = (word-parts 0 v (omega arith)).0
