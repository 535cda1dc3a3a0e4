-- ===== src/Tests/Accepting.antt =====
-- Accepted connections: runs, and the theorem at a concrete input.
use ostrichserver.Base.{
  ℕ, ◌%◌, ◌-◌, ◌^◌, false, List, [], ◌∷◌, Option, none, some, ◌≡◌, refl, arith, leb, ◌==◌,
  if◌then◌else◌,
}
use ostrichserver.Processor.{at_count}
use ostrichserver.EventLoop.Thread.{Event, Thread}
use ostrichserver.Accepting.Schedule.{Server, server_init, accept_block_loop}
use ostrichserver.Accepting.Once.{ProcessedBy, accepted_once}

abbrev untouched : ℕ → Thread → Thread
untouched e s = s

abbrev quiet : (e : ℕ) (s : Thread) → untouched e s ≡ s
quiet e s = refl

abbrev no_links : ℕ → Option ℕ
no_links e = none

abbrev plain : ℕ → Event
plain e = record { idle = leb 10 e; timeout = 0; redo = false }

abbrev externals_of : ℕ → Option Server → Option (List ℕ)
externals_of t none = none
externals_of t (some s) = some (s.externals t)

-- Five connections and two threads.
dealt :
    (externals_of 0 (accept_block_loop (1 ∷ 2 ∷ 3 ∷ 4 ∷ 5 ∷ []) (server_init 2))
      ≡ some (5 ∷ 3 ∷ 1 ∷ []))
    × (externals_of 1 (accept_block_loop (1 ∷ 2 ∷ 3 ∷ 4 ∷ 5 ∷ []) (server_init 2))
        ≡ some (4 ∷ 2 ∷ []))
unfolding accept_block_loop
dealt = (refl, refl)

-- At the end of the counter, the index of the thread is negative.
wraps :
    accept_block_loop
      (1 ∷ 2 ∷ [])
      (record { processor = at_count 3 (2 ^ 31 - 1); externals = λ t. [] })
    ≡ none
unfolding accept_block_loop
wraps = refl

accepted_once_example :
    (s : Server) × (accept_block_loop (1 ∷ 2 ∷ 3 ∷ 4 ∷ []) (server_init 2) ≡ some s)
    × ProcessedBy untouched quiet no_links plain
        (λ e. refl)
        (λ e. refl)
        10
        0
        5
        100
        (s.externals 0)
        3
        (if 0 == 2 % 2 then 1 else 0)
accepted_once_example =
    accepted_once untouched quiet no_links plain (λ e. refl) (λ e. refl) 2 10 0 5 3 100 0
      (1 ∷ 2 ∷ []) (4 ∷ []) (omega arith) (omega arith) (omega arith) (λ f. ground arith)
