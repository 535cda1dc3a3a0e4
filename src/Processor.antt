-- ===== src/Processor.antt =====
-- How threads are given to events (processor.c, processor.h): `event_assign_thread`.
use native.Mathlib.Nat.{mod-lt, mod-add-mod}
use native.Mathlib.Decide.{dec_lt}
use ostrichserver.Base.{
  ℕ, zero, suc, ◌+◌, ◌-◌, ◌%◌, ◌^◌, ◌<◌, ◌≤◌, false, ◌≡◌, refl, sym, ap, ◌∙◌, arith, ◌==◌,
  if◌then◌else◌,
}
use ostrichserver.Base.Int.{ℤ, pos, negsuc}
use ostrichserver.Base.Circle.{circle, circle_reaches, circle_once}

-- `_eventprocessor`; `next_thread` is an `int` of 32 bits, which is taken to wrap.
pub record EventProcessor : Type 0 where
  pub n_threads : ℕ
  pub next_thread : ℤ

-- `eventprocessor_init`, the counters
abbrev pub eventprocessor_init : ℕ → EventProcessor
eventprocessor_init n = record { n_threads = n; next_thread = pos 0 }

-- `next_thread++`
abbrev pub increment : ℤ → ℤ
increment (pos n) = if n == 2 ^ 31 - 1 then negsuc (2 ^ 31 - 1) else pos (n + 1)
increment (negsuc zero) = pos 0
increment (negsuc (suc n)) = negsuc n

-- `a % m` of C, whose sign is that of `a`
abbrev pub remainder : ℤ → ℕ → ℤ
remainder (pos n) m = pos (n % m)
remainder (negsuc n) m = if suc n % m == 0 then pos 0 else negsuc (suc n % m - 1)

-- `event_assign_thread`: the index of the thread in the array, and the processor
unfoldable pub event_assign_thread : EventProcessor → ℤ × EventProcessor
event_assign_thread p =
    (remainder p.next_thread p.n_threads, record p { next_thread = increment p.next_thread })

-- the processor after some calls
unfoldable pub after_calls : ℕ → EventProcessor → EventProcessor
after_calls zero p = p
after_calls (suc calls) p = after_calls calls (event_assign_thread p).1

-- the index that the call behind `calls` others gives
abbrev pub assigned : EventProcessor → ℕ → ℤ
assigned p calls = (event_assign_thread (after_calls calls p)).0

abbrev pub at_count : ℕ → ℕ → EventProcessor
at_count n c = record { n_threads = n; next_thread = pos c }

after_calls-at_count :
    (calls n c : ℕ) → c + calls < 2 ^ 31 → after_calls calls (at_count n c) ≡ at_count n (c + calls)
unfolding after_calls event_assign_thread
after_calls-at_count zero n c h = ap (at_count n) (omega arith)
after_calls-at_count (suc calls) n c h =
    let small : (c == 2 ^ 31 - 1) ≡ false = ground arith in
    ap (λ (x : ℤ). after_calls calls (record { n_threads = n; next_thread = x }))
      (let e : increment (pos c) ≡ pos (c + 1) = rw small refl in e)
    ∙ after_calls-at_count calls n (c + 1) (omega arith)
    ∙ ap (at_count n) (omega arith)

assigned-eq : (n c i : ℕ) → c + i < 2 ^ 31 → assigned (at_count n c) i ≡ pos ((c + i) % n)
unfolding event_assign_thread
assigned-eq n c i h =
    ap (λ (p : EventProcessor). (event_assign_thread p).0) (after_calls-at_count i n c h)

circle_of : (n c i : ℕ) → (c + i) % n ≡ circle n (c % n) i
circle_of n c i = sym (mod-add-mod c n i)

-- Round robin. As long as the counter has not come to 2^31, any `n` calls in a row of `event_assign_thread`
-- with `n` threads give each of the threads exactly once, whatever the counter was at the start.
pub event_assign_thread_once :
    (n c t : ℕ)
    → c + n ≤ 2 ^ 31
    → t < n
    → (i : ℕ) × (i < n)
      × (assigned (at_count n c) i ≡ pos t)
      × ((j : ℕ) → j < n → assigned (at_count n c) j ≡ pos t → j ≡ i)
event_assign_thread_once n c t room ht =
    let (i, hi, e) = circle_reaches n (c % n) t (mod-lt c (omega arith)) ht in
    (
      i,
      hi,
      assigned-eq n c i (omega arith) ∙ ap pos (circle_of n c i ∙ e),
      λ j hj f.
          let g : pos ((c + j) % n) ≡ pos t = sym (assigned-eq n c j (omega arith)) ∙ f in
          let same : circle n (c % n) j ≡ t = sym (circle_of n c j) ∙ (cc) in
          elim (dec_lt i j) [
            | yes less ↦ absurd (circle_once n (c % n) i j (omega arith) less hj (e ∙ sym same))
            | no more ↦ elim (dec_lt j i) [
              | yes less ↦ absurd (circle_once n (c % n) j i (omega arith) less hi (same ∙ sym e))
              | no equal ↦ omega arith
            ]
          ],
    )
