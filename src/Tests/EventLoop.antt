-- ===== src/Tests/EventLoop.antt =====
-- The event loop of a thread: runs, and the theorems at concrete inputs.
use ostrichserver.Base.{
  ℕ, ◌+◌, true, false, List, [], ◌∷◌, Option, none, some, ◌≡◌, ◌≢◌, refl, arith, if◌then◌else◌, ltb,
  leb, ◌&&◌, inr,
}
use ostrichserver.Dict.Slots.{get_or-replicate}
use ostrichserver.TimedQueue.Queue.{
  priority_queue_init, priority_queue_check, event_priority_enqueue,
}
use ostrichserver.TimedQueue.Buckets.{bucket_of}
use ostrichserver.EventLoop.Thread.{
  Event, Thread, Turn, turned, faults, runs_on, thread_init, collect_all, collect_loop, turn,
  main_event_loop,
}
use ostrichserver.EventLoop.Queued.{occurs}
use ostrichserver.EventLoop.Turns.{Turned, turn-Turned}
use ostrichserver.EventLoop.Order.{postponed_by}
use ostrichserver.EventLoop.Starting.{main_event_loop-Polls}
use ostrichserver.EventLoop.Redo.{collect_rounds, unless_collected, Repeats, turn-runs_on}

-- Unfolded to run the loop.
loop_run : Unit {0}
unfolding thread_init turn main_event_loop priority_queue_check event_priority_enqueue bucket_of
    collect_all
loop_run = tt

abbrev untouched : ℕ → Thread → Thread
untouched e s = s

abbrev quiet : (e : ℕ) (s : Thread) → untouched e s ≡ s
quiet e s = refl

-- Below 10 events are at once, below 20 they are idle, and from 20 on they are due at the time 3.
abbrev fields : ℕ → Event
fields e = record { idle = leb 10 e && ltb e 20; timeout = if ltb e 20 then 0 else 3; redo = false }

abbrev plain : ℕ → Event
plain e = record { idle = leb 10 e; timeout = 0; redo = false }

abbrev no_links : ℕ → Option ℕ
no_links e = none

abbrev log_of : Turn → Option (List ℕ)
log_of (turned s) = some s.processed
log_of faults = none
log_of runs_on = none

-- Three turns: the polling event 100 in each, the events 1 and 2 of the first turn in the second, and the
-- idle event 11 behind those that are at once.
three_turns :
    log_of (
      main_event_loop untouched 10
        ((0, 2 ∷ 11 ∷ 1 ∷ []) ∷ (0, 3 ∷ []) ∷ (0, []) ∷ [])
        (thread_init true 100 no_links plain))
    ≡ some (100 ∷ 1 ∷ 2 ∷ 11 ∷ 100 ∷ 3 ∷ 100 ∷ [])
unfolding loop_run
three_turns = refl

-- An event that is due at once is filed, and then NULL is processed.
due_event :
    main_event_loop untouched 10
      ((0, 20 ∷ []) ∷ (0, []) ∷ [])
      (thread_init true 100 no_links fields)
    ≡ faults
unfolding loop_run
due_event = refl

main_event_loop-Polls_example :
    (s' : Thread) × (main_event_loop untouched 10
        ((0, 2 ∷ 1 ∷ []) ∷ (5, 3 ∷ []) ∷ [])
        (thread_init true 100 no_links plain)
      ≡ turned s')
    × (occurs 100 s'.processed ≡ 2)
    × ((e : ℕ) → e ≢ 100 → occurs e s'.processed + occurs e (3 ∷ []) ≡ occurs e (2 ∷ 1 ∷ 3 ∷ []))
main_event_loop-Polls_example =
    main_event_loop-Polls untouched quiet 100 no_links plain ((0, 2 ∷ 1 ∷ []) ∷ (5, 3 ∷ []) ∷ []) 10
      (λ e. refl) (λ e. refl) (λ e. ground arith) (omega arith)

-- A thread with the event 1 collected and the idle event 12 postponed.
abbrev waiting : Thread
waiting = record {
  collect = some 1;
  postponed = some 12;
  timed = priority_queue_init no_links;
  events = plain;
  processed = [];
}

turn-Turned_example :
    (s' : Thread) × (turn untouched 10 7 (2 ∷ []) waiting ≡ turned s')
    × Turned untouched quiet waiting (1 ∷ []) (12 ∷ []) (2 ∷ []) s'
unfolding loop_run postponed_by
turn-Turned_example =
    turn-Turned untouched quiet waiting (1 ∷ []) (12 ∷ []) (2 ∷ []) 10 7
      (record { collects = (refl, refl); postpones = (refl, refl); once = λ e. ground arith })
      (inr (refl, refl, refl), tt) (λ i. get_or-replicate 10 i none) (λ e. ground arith)
      (omega arith)

abbrev repeated : Thread
repeated = record waiting { events = λ e. record { idle = false; timeout = 0; redo = true } }

turn-runs_on_example :
    Repeats 1 1000 repeated (collect_rounds untouched 1000 7 repeated)
    × (collect_loop untouched 1001 7 repeated
        ≡ unless_collected (collect_rounds untouched 1000 7 repeated))
    × (turn untouched 1001 7 (2 ∷ []) repeated ≡ runs_on)
turn-runs_on_example = turn-runs_on untouched quiet 1000 7 1 (2 ∷ []) repeated refl refl refl refl
