-- ===== src/SpinLock/Waiting.antt =====
-- What becomes of a thread that waits for the lock.
use ostrichserver.Base.{
  ℕ, ◌+◌, ◌-◌, ◌*◌, ◌%◌, ◌^◌, ◌≤◌, zero, suc, true, List, [], ◌∷◌, ◌≡◌, ◌≢◌, ◌⊎◌, inl, inr, refl,
  sym, ap, subst, ◌∙◌, arith, ltb, ◌==◌, length,
}
use ostrichserver.AtomicList.Chains.{update_ne, update_self}
use ostrichserver.SpinLock.Threads.{
  Spot, at_top, behind, SpinPc, outside, testing, swapping, holding, Cpu, default_cpu, next_spot,
  advance, Locked, unlocked, step, run,
}
use ostrichserver.SpinLock.Exclusion.{Guarded, moved, run-Guarded, unlocked-Guarded}

-- A thread is in `spin_lock`.
abbrev pub IsWaiting : SpinPc → Type 0
IsWaiting p = ((q : Spot) × (p ≡ testing q)) ⊎ ((q : Spot) × (p ≡ swapping q))

step-at :
    (cpu : Cpu) (i : ℕ) (s : Locked) (p : SpinPc) → s.pc i ≡ p → step cpu i s ≡ moved cpu i s p
unfolding step
step-at cpu i s p here = ap (moved cpu i s) here

swap_free :
    (cpu : Cpu) (i : ℕ) (s : Locked) (q : Spot)
    → s.pc i ≡ swapping q
    → s.word ≡ 0
    → (step cpu i s).pc i ≡ holding
unfolding advance
swap_free cpu i s q here free =
    let e : (s.word == 0) ≡ true = ground arith in
    rw (step-at cpu i s (swapping q) here, e) (update_self s.pc i holding)

test_free :
    (cpu : Cpu) (i : ℕ) (s : Locked) (q : Spot)
    → s.pc i ≡ testing q
    → s.word ≡ 0
    → ((step cpu i s).pc i ≡ swapping q) × ((step cpu i s).word ≡ 0)
unfolding advance
test_free cpu i s q here free =
    let e : (s.word == 0) ≡ true = ground arith in
    (
      rw (step-at cpu i s (testing q) here, e) (update_self s.pc i (swapping q)),
      rw (step-at cpu i s (testing q) here, e) free,
    )

released :
    (cpu : Cpu) (t i : ℕ) (s : Locked)
    → s.pc t ≡ holding
    → t ≢ i
    → ((step cpu t s).pc i ≡ s.pc i) × ((step cpu t s).word ≡ 0)
unfolding advance
released cpu t i s here other = (
  rw (step-at cpu t s holding here) (update_ne s.pc t outside i other),
  rw (step-at cpu t s holding here) refl,
)

-- steps, as many as `n` at most, behind which the thread `i` holds the lock
abbrev pub HoldsIn : Cpu → ℕ → ℕ → Locked → Type 0
HoldsIn cpu n i s = (js : List ℕ) × (length js ≤ n) × ((run cpu js s).pc i ≡ holding)

from_Free : (cpu : Cpu) (i : ℕ) (s : Locked) → IsWaiting (s.pc i) → s.word ≡ 0 → HoldsIn cpu 2 i s
unfolding run
from_Free cpu i s (inl (q, here)) free =
    let (at_swap, still) = test_free cpu i s q here free in
    (i ∷ i ∷ [], omega arith, swap_free cpu i (step cpu i s) q at_swap still)
from_Free cpu i s (inr (q, here)) free = (i ∷ [], omega arith, swap_free cpu i s q here free)

behind_step :
    (cpu : Cpu) (t i n : ℕ) (s : Locked) → HoldsIn cpu n i (step cpu t s) → HoldsIn cpu (n + 1) i s
unfolding run
behind_step cpu t i n s (js, few, holds) = (t ∷ js, omega arith, holds)

waiting-holding : (p : SpinPc) → IsWaiting p → p ≢ holding
waiting-holding p (inl (q, here)) = ground arith
waiting-holding p (inr (q, here)) = ground arith

from_Guarded : (cpu : Cpu) (i : ℕ) (s : Locked) → IsWaiting (s.pc i) → Guarded s → HoldsIn cpu 3 i s
from_Guarded cpu i s waits (inl free) =
    let (js, few, holds) = from_Free cpu i s waits free.is_zero in (js, omega arith, holds)
from_Guarded cpu i s waits (inr (t, held)) =
    let other : t ≢ i = λ e. waiting-holding (s.pc i) waits (sym (ap s.pc e) ∙ held.holds) in
    let (kept, zeroed) = released cpu t i s held.holds other in
    behind_step cpu t i 2 s
      (from_Free cpu i (step cpu t s) (subst IsWaiting (sym kept) waits) zeroed)

-- The lock is not lost. Whatever steps were made, a thread that is in `spin_lock` comes to hold the lock by at
-- most three more steps: the release by the thread that holds it, where one does, and two of its own.
pub waits-Holds :
    (cpu : Cpu) (is : List ℕ) (i : ℕ)
    → IsWaiting ((run cpu is unlocked).pc i)
    → HoldsIn cpu 3 i (run cpu is unlocked)
waits-Holds cpu is i waits =
    from_Guarded cpu i (run cpu is unlocked) waits (run-Guarded cpu is unlocked unlocked-Guarded)

-- where a thread is that has found the lock taken `k` times in one call
unfoldable pub after_tries : Cpu → ℕ → Spot
unfolding next_spot
after_tries cpu zero = at_top
after_tries cpu (suc k) = next_spot cpu (after_tries cpu k)

tries_33 : after_tries default_cpu 33 ≡ behind 0
unfolding after_tries
tries_33 = refl

zero_again : next_spot default_cpu (behind 0) ≡ behind 0
unfolding next_spot
zero_again = refl

more_tries : (d : ℕ) → after_tries default_cpu (d + 33) ≡ behind 0
unfolding after_tries
more_tries zero = tries_33
more_tries (suc d) =
    let e : suc d + 33 ≡ suc (d + 33) = omega arith in
    rw e (ap (next_spot default_cpu) (more_tries d) ∙ zero_again)

never_top : (p : Spot) → next_spot default_cpu p ≢ at_top
unfolding next_spot
never_top at_top = ground arith
never_top (behind n) =
    let room : ltb (n * 2 % 2 ^ 32) (2 ^ 32 - 1) ≡ true = ground arith in rw room (ground arith)

-- With `cpu_num` and `pid` as the program sets them, a thread that has found the lock taken never comes to
-- `sched_yield` in that call, and from the 33rd time on it tests the lock without a pause between.
pub after_tries-behind :
    (k : ℕ)
    → (after_tries default_cpu (k + 1) ≢ at_top) × (after_tries default_cpu (k + 33) ≡ behind 0)
unfolding after_tries
after_tries-behind k =
    let e : k + 1 ≡ suc k = omega arith in
    (rw e (never_top (after_tries default_cpu k)), more_tries k)
