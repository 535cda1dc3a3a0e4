-- ===== src/Tests/AtomicList.antt =====
-- Two threads that push events while the owner takes them, and the theorems at concrete inputs.
use ostrichserver.Base.{ℕ, ◌≤◌, ◌≡◌, refl, [], ◌∷◌, ◌++◌, arith, inr}
use ostrichserver.AtomicList.Word.{al_pointer, al_version, set_pointer_version}
use ostrichserver.AtomicList.System.{
  Shared, start, load, set_next, swap, swap_fails, dequeue, nonempty, fetch, empty, collect,
  collect_end, produce, consume, Reach, begin, after,
}
use ostrichserver.AtomicList.Fifo.{Waiting, waiting, processed_first}
use ostrichserver.AtomicList.Progress.{push-Completes, Completes}
use ostrichserver.AtomicList.Draining.{owner_drains, Consumes}

-- Thread 1 loads the head, then thread 2 pushes 8192, and thread 1 is at its compare-and-swap.
abbrev interrupted : (s : Shared) × Reach s
unfolding set_pointer_version
interrupted = (
  _,
  after
      (after
        (after
          (after
            (after
              (after (after begin (produce 1 (start 4096 refl (omega arith, omega arith) refl)))
                (produce 1 (load 4096 refl)))
              (produce 2 (start 8192 refl (omega arith, omega arith) refl)))
            (produce 2 (load 8192 refl)))
          (produce 2 (set_next 8192 0 refl)))
        (produce 2 (swap 8192 0 refl refl)))
      (produce 1 (set_next 4096 0 refl)),
)

-- Then its compare-and-swap fails, and succeeds in the second round.
abbrev both_pushed : (s : Shared) × Reach s
unfolding interrupted set_pointer_version al_version al_pointer
both_pushed = (
  _,
  after
      (after
        (after (after interrupted.1 (produce 1 (swap_fails 4096 0 refl (λ h. omega (arith, h)))))
          (produce 1 (load 4096 refl)))
        (produce 1 (set_next 4096 8192 refl)))
      (produce 1 (swap 4096 8192 refl refl)),
)

-- The owner takes both and has processed the one that was pushed first.
abbrev one_processed : (s : Shared) × Reach s
unfolding both_pushed set_pointer_version al_pointer al_version
one_processed = (
  _,
  after
      (after
        (after
          (after
            (after
              (after (after both_pushed.1 (consume (nonempty refl refl (λ h. omega (arith, h)))))
                (consume (fetch refl (λ h. omega (arith, h)))))
              (consume (empty 4096 refl refl)))
            (consume (collect 4096 refl (λ h. omega (arith, h)))))
          (consume (collect 8192 refl (λ h. omega (arith, h)))))
        (consume (collect_end refl)))
      (consume (dequeue refl (λ h. omega (arith, h)))),
)

orders : (both_pushed.0.pushed ≡ 8192 ∷ 4096 ∷ []) × (one_processed.0.processed ≡ 8192 ∷ [])
unfolding one_processed both_pushed
orders = (refl, refl)

processed_first_example :
    (w : Waiting one_processed.0) × (8192 ∷ 4096 ∷ [] ≡ (8192 ∷ []) ++ waiting w)
unfolding one_processed
processed_first_example = processed_first one_processed.1

push-Completes_example : (n : ℕ) × (n ≤ 5) × Completes 1 interrupted.0 4096 n
unfolding interrupted
push-Completes_example = push-Completes 1 interrupted.0 4096 (inr (inr (0, refl)))

owner_drains_example :
    (t : Shared) × Consumes both_pushed.0 t
    × (t.processed ≡ 8192 ∷ 4096 ∷ [])
    × (t.pushed ≡ 8192 ∷ 4096 ∷ [])
unfolding both_pushed
owner_drains_example = owner_drains both_pushed.1 refl
