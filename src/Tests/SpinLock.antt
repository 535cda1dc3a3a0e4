-- ===== src/Tests/SpinLock.antt =====
-- Two threads and one lock: runs, and the theorems at concrete inputs.
use ostrichserver.Base.{ℕ, ◌+◌, List, [], ◌∷◌, ◌≡◌, ◌≢◌, ◌⊎◌, inl, refl}
use ostrichserver.SpinLock.Threads.{at_top, behind, testing, holding, default_cpu, unlocked, run}
use ostrichserver.SpinLock.Exclusion.{Free, HeldBy, run_unlocked-Guarded}
use ostrichserver.SpinLock.Waiting.{
  IsWaiting, HoldsIn, waits-Holds, after_tries, after_tries-behind,
}

-- Both threads find the word 0, and one of them comes first to its swap.
abbrev race : List ℕ
race = 0 ∷ 1 ∷ 0 ∷ 1 ∷ 1 ∷ 0 ∷ []

raced :
    ((run default_cpu race unlocked).pc 1 ≡ holding)
    × ((run default_cpu race unlocked).pc 0 ≡ testing (behind 1))
    × ((run default_cpu race unlocked).word ≡ 1)
unfolding run
raced = (refl, refl, refl)

run_unlocked-Guarded_example :
    Free (run default_cpu race unlocked) ⊎ ((t : ℕ) × HeldBy t (run default_cpu race unlocked))
run_unlocked-Guarded_example = run_unlocked-Guarded default_cpu race

raced-IsWaiting : IsWaiting ((run default_cpu race unlocked).pc 0)
raced-IsWaiting = inl (behind 1, raced.1)

waits-Holds_example : HoldsIn default_cpu 3 0 (run default_cpu race unlocked)
waits-Holds_example = waits-Holds default_cpu race 0 raced-IsWaiting

after_tries-behind_example :
    (after_tries default_cpu (2 + 1) ≢ at_top) × (after_tries default_cpu (2 + 33) ≡ behind 0)
after_tries-behind_example = after_tries-behind 2
