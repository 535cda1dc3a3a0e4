-- ===== src/SpinLock/Exclusion.antt =====
-- One thread at most holds the lock.
use ostrichserver.Base.{
  ℕ, true, List, [], ◌∷◌, ◌≡◌, ◌≢◌, ◌⊎◌, inl, inr, refl, sym, ap, ◌∙◌, arith, ◌==◌, Bool-cases,
}
use ostrichserver.AtomicList.System.{update}
use ostrichserver.AtomicList.Chains.{update_ne, update_self}
use ostrichserver.SpinLock.Threads.{
  at_top, SpinPc, outside, testing, swapping, holding, Cpu, next_spot, advance, Locked, unlocked,
  step, run,
}

-- Nobody holds the lock and its word is 0, or one thread holds it and its word is 1.
pub record Free (s : Locked) : Type 0 where
  pub is_zero : s.word ≡ 0
  pub nobody : (i : ℕ) → s.pc i ≢ holding

pub record HeldBy (t : ℕ) (s : Locked) : Type 0 where
  pub is_one : s.word ≡ 1
  pub holds : s.pc t ≡ holding
  pub alone : (i : ℕ) → s.pc i ≡ holding → i ≡ t

abbrev pub Guarded : Locked → Type 0
Guarded s = Free s ⊎ ((t : ℕ) × HeldBy t s)

-- a step that leaves the word as it is and takes no lock
stays-Free :
    (s : Locked) (i : ℕ) (p : SpinPc)
    → p ≢ holding
    → Free s
    → Free (record s { pc = update s.pc i p })
stays-Free s i p h f = record {
  is_zero = f.is_zero;
  nobody = λ j held. ground (arith, f.nobody j, h);
}

stays_held :
    (s : Locked) (i t : ℕ) (p : SpinPc)
    → p ≢ holding
    → i ≢ t
    → HeldBy t s
    → HeldBy t (record s { pc = update s.pc i p })
stays_held s i t p h other f = record {
  is_one = f.is_one;
  holds = update_ne s.pc i p t other ∙ f.holds;
  alone = λ j held. ground (arith, f.alone j, h);
}

keeps :
    (s : Locked) (i : ℕ) (p q : SpinPc)
    → s.pc i ≡ p
    → p ≢ holding
    → q ≢ holding
    → Guarded s
    → Guarded (record s { pc = update s.pc i q })
keeps s i p q here not_p not_q (inl free) = inl (stays-Free s i q not_q free)
keeps s i p q here not_p not_q (inr (t, held)) =
    let other : i ≢ t = λ e. not_p (sym here ∙ ap s.pc e ∙ held.holds) in
    inr (t, stays_held s i t q not_q other held)

takes : (s : Locked) (i : ℕ) → Free s → HeldBy i (record { word = 1; pc = update s.pc i holding })
takes s i free = record {
  is_one = refl;
  holds = update_self s.pc i holding;
  alone = λ j held. ground (arith, free.nobody j);
}

releases :
    (s : Locked) (t : ℕ) → HeldBy t s → Free (record { word = 0; pc = update s.pc t outside })
releases s t held = record { is_zero = refl; nobody = λ j h. ground (arith, held.alone j) }

on_zero :
    (s : Locked) (i : ℕ)
    → (s.word == 0) ≡ true
    → Guarded s
    → Guarded (record { word = 1; pc = update s.pc i holding })
on_zero s i zero_word (inl free) = inr (i, takes s i free)
on_zero s i zero_word (inr (t, held)) = absurd (ground (arith, held.is_one))

-- the state behind a step of the thread `i` that is at `p`
abbrev pub moved : Cpu → ℕ → Locked → SpinPc → Locked
moved cpu i s p = record {
  word = (advance cpu s.word p).0;
  pc = update s.pc i (advance cpu s.word p).1;
}

moved-Guarded :
    (cpu : Cpu) (i : ℕ) (s : Locked) (p : SpinPc)
    → s.pc i ≡ p
    → Guarded s
    → Guarded (moved cpu i s p)
unfolding advance
moved-Guarded cpu i s outside here g =
    keeps s i outside (testing at_top) here (ground arith) (ground arith) g
moved-Guarded cpu i s (testing p) here g = elim (Bool-cases (s.word == 0)) [
  | inl zero_word ↦
      simp zero_word (keeps s i (testing p) (swapping p) here (ground arith) (ground arith) g)
  | inr taken ↦
      simp taken
        (keeps s i (testing p) (testing (next_spot cpu p)) here (ground arith) (ground arith) g)
]
moved-Guarded cpu i s (swapping p) here g = elim (Bool-cases (s.word == 0)) [
  | inl zero_word ↦ simp zero_word (on_zero s i zero_word g)
  | inr taken ↦
      simp taken
        (keeps s i (swapping p) (testing (next_spot cpu p)) here (ground arith) (ground arith) g)
]
moved-Guarded cpu i s holding here (inl free) = absurd (free.nobody i here)
moved-Guarded cpu i s holding here (inr (t, held)) =
    let same : i ≡ t = held.alone i here in inl (rw same (releases s t held))

step-Guarded : (cpu : Cpu) (i : ℕ) (s : Locked) → Guarded s → Guarded (step cpu i s)
unfolding step
step-Guarded cpu i s g = moved-Guarded cpu i s (s.pc i) refl g

pub run-Guarded : (cpu : Cpu) (is : List ℕ) (s : Locked) → Guarded s → Guarded (run cpu is s)
unfolding run
run-Guarded cpu [] s g = g
run-Guarded cpu (i ∷ is) s g = run-Guarded cpu is (step cpu i s) (step-Guarded cpu i s g)

pub unlocked-Guarded : Guarded unlocked
unlocked-Guarded = inl (record { is_zero = refl; nobody = λ i. ground arith })

-- Mutual exclusion. However many threads call `_lock` and `_unlock` in whatever order their steps come, the
-- word of the lock is 0 while no thread holds it, and else 1 while one thread holds it and no other.
pub run_unlocked-Guarded :
    (cpu : Cpu) (is : List ℕ)
    → Free (run cpu is unlocked) ⊎ ((t : ℕ) × HeldBy t (run cpu is unlocked))
run_unlocked-Guarded cpu is = run-Guarded cpu is unlocked unlocked-Guarded
