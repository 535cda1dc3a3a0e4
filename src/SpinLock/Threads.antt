-- ===== src/SpinLock/Threads.antt =====
-- Threads that take and release one lock with `spin_lock` (spinlock.c) and `_unlock` (atomic.h), interleaved in
-- any order. A step of a thread is one access to the word of the lock; `cpu_pause` and `sched_yield` do
-- nothing to it.
use ostrichserver.Base.{ℕ, ◌-◌, ◌*◌, ◌%◌, ◌^◌, List, [], ◌∷◌, ltb, ◌==◌, if◌then◌else◌}
use ostrichserver.AtomicList.System.{update}

-- where a thread is in `spin_lock`: at the first test of a turn of the loop, which it comes to by the call and
-- by `sched_yield`, or at the test behind `n` pauses
pub data Spot : Type 0 where
  at_top : Spot
  behind : ℕ → Spot

-- `testing` is at `*lock == 0`, `swapping` at `atomic_cas` behind it
pub data SpinPc : Type 0 where
  outside : SpinPc
  testing : Spot → SpinPc
  swapping : Spot → SpinPc
  holding : SpinPc

-- `cpu_num`, and `pid` as it is compared with a `uint32_t`
pub record Cpu : Type 0 where
  pub cpu_num : ℕ
  pub pid : ℕ

-- as main.c sets them, with -1 for `pid`
abbrev pub default_cpu : Cpu
default_cpu = record { cpu_num = 4; pid = 2 ^ 32 - 1 }

-- the test `n < pid` of the loop, behind which the thread pauses `n` times or yields
abbrev pub for_test : Cpu → ℕ → Spot
for_test cpu n = if ltb n cpu.pid then behind n else at_top

-- where a thread goes on that has found the lock taken
unfoldable pub next_spot : Cpu → Spot → Spot
next_spot cpu at_top = if ltb 1 cpu.cpu_num then for_test cpu 1 else at_top
next_spot cpu (behind n) = for_test cpu (n * 2 % 2 ^ 32)

-- a step of one thread, with the word of the lock: the call of `_lock`, a step of `spin_lock`, or `_unlock`
unfoldable pub advance : Cpu → ℕ → SpinPc → ℕ × SpinPc
unfolding next_spot
advance cpu word outside = (word, testing at_top)
advance cpu word (testing p) =
    if word == 0 then (word, swapping p) else (word, testing (next_spot cpu p))
advance cpu word (swapping p) =
    if word == 0 then (1, holding) else (word, testing (next_spot cpu p))
advance cpu word holding = (0, outside)

-- `*lock`, and where each thread is
pub record Locked : Type 0 where
  pub word : ℕ
  pub pc : ℕ → SpinPc

abbrev pub unlocked : Locked
unlocked = record { word = 0; pc = λ i. outside }

unfoldable pub step : Cpu → ℕ → Locked → Locked
unfolding advance
step cpu i s = let (w, p) = advance cpu s.word (s.pc i) in record { word = w; pc = update s.pc i p }

-- the steps of the threads that a list names, in its order
unfoldable pub run : Cpu → List ℕ → Locked → Locked
unfolding step
run cpu [] s = s
run cpu (i ∷ is) s = run cpu is (step cpu i s)
