-- ===== src/OsString/Number.antt =====
-- `os_natoi` and `os_atoi`.
use ostrichserver.Base.{
  ℕ, zero, suc, ◌+◌, ◌-◌, ◌*◌, ◌/◌, ◌%◌, ◌^◌, ◌≤◌, ◌<◌, ◌≡◌, refl, ◌∙◌, inl, inr, false, ◌||◌,
  Option, none, some, List, [], ◌∷◌, arith, length, ltb, leb, ◌==◌, if◌then◌else◌, Bool-cases,
}

-- The loop of `os_natoi` over `n` bytes. A `ssize_t` is taken to wrap at 64 bits; `none` is `OS_ERR`.
unfoldable pub natoi_loop : List ℕ → ℕ → ℕ → Option ℕ
natoi_loop line zero value = some value
natoi_loop [] (suc n) value = none
natoi_loop (c ∷ line) (suc n) value =
    let more = natoi_loop line n ((value * 10 + (c - b'0')) % 2 ^ 64) in
    if ltb c b'0' || ltb b'9' c then none else more

-- the last test: a negative value
abbrev pub not_negative : Option ℕ → Option ℕ
not_negative none = none
not_negative (some v) = if leb (2 ^ 63) v then none else some v

unfoldable pub os_natoi : List ℕ → ℕ → Option ℕ
unfolding natoi_loop
os_natoi line n = if n == 0 then none else not_negative (natoi_loop line n 0)

unfoldable pub os_atoi : List ℕ → Option ℕ
unfolding os_natoi
os_atoi line = os_natoi line (length line)

-- The decimal digits of a number, by repeated division; `fuel` bounds their number.
unfoldable pub digits_of : ℕ → ℕ → List ℕ → List ℕ
digits_of zero n tail = tail
digits_of (suc fuel) n tail =
    let d = (b'0' + n % 10) ∷ tail in
    let more = digits_of fuel (n / 10) d in if n / 10 == 0 then d else more

abbrev pub decimal : ℕ → List ℕ
decimal n = digits_of (suc n) n []

-- One digit, where the value stays in range.
digit_step :
    (tail : List ℕ) (k v d m : ℕ)
    → d < 10
    → v * 10 + d ≡ m
    → m < 2 ^ 63
    → natoi_loop ((b'0' + d) ∷ tail) (suc k) v ≡ natoi_loop tail k m
unfolding natoi_loop
digit_step tail k v d m h e w =
    let value : (v * 10 + (48 + d - 48)) % 18446744073709551616 ≡ m = omega arith in
    let digit : (ltb (48 + d) 48 || ltb 57 (48 + d)) ≡ false = ground arith in
    rw digit (rw value refl)

digits_of-natoi :
    (fuel n : ℕ) (tail : List ℕ)
    → n < fuel
    → n < 2 ^ 63
    → natoi_loop (digits_of fuel n tail) (length (digits_of fuel n tail)) 0
      ≡ natoi_loop tail (length tail) n
unfolding digits_of
digits_of-natoi zero n tail h w = absurd (omega arith)
digits_of-natoi (suc fuel) n tail h w = elim (Bool-cases (n / 10 == 0)) [
  | inl last ↦
      let small : n / 10 ≡ 0 = ground arith in
      rw last (digit_step tail (length tail) 0 (n % 10) n (omega arith) (omega arith) w)
  | inr more ↦ rw more (
      digits_of-natoi fuel (n / 10) ((b'0' + n % 10) ∷ tail) (ground arith) (omega arith)
      ∙ digit_step tail (length tail) (n / 10) (n % 10) n (omega arith) (omega arith) w)
]

digits_of_grows : (fuel n : ℕ) (tail : List ℕ) → length tail ≤ length (digits_of fuel n tail)
unfolding digits_of
digits_of_grows zero n tail = omega arith
digits_of_grows (suc fuel) n tail = elim (Bool-cases (n / 10 == 0)) [
  | inl last ↦ rw last (omega arith)
  | inr more ↦ rw more (omega (arith, digits_of_grows fuel (n / 10) ((b'0' + n % 10) ∷ tail)))
]

decimal_nonempty : (n : ℕ) → 0 < length (decimal n)
unfolding digits_of
decimal_nonempty n = elim (Bool-cases (n / 10 == 0)) [
  | inl last ↦ rw last (omega arith)
  | inr more ↦ rw more (omega (arith, digits_of_grows n (n / 10) ((b'0' + n % 10) ∷ [])))
]

-- Round trip. `os_atoi` reads the decimal digits of every number below 2^63 as that number.
pub os_atoi-decimal : (n : ℕ) → n < 2 ^ 63 → os_atoi (decimal n) ≡ some n
unfolding os_atoi natoi_loop
os_atoi-decimal n w =
    let not_empty : (length (decimal n) == 0) ≡ false = ground (arith, decimal_nonempty n) in
    let small : leb (2 ^ 63) n ≡ false = ground arith in
    rw not_empty (rw (digits_of-natoi (suc n) n [] (omega arith) w) (rw small refl))
