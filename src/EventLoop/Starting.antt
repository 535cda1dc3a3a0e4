-- ===== src/EventLoop/Starting.antt =====
-- A thread from `thread_init` on.
use ostrichserver.Base.{
  ℕ, ◌+◌, ◌≤◌, ◌<◌, Bool, true, false, List, [], ◌∷◌, Option, none, some, ◌≡◌, ◌≢◌, refl, ap, ◌∙◌,
  arith, ◌==◌, ltb, ◌||◌, if◌then◌else◌, length,
}
use ostrichserver.Dict.Slots.{get_or-replicate}
use ostrichserver.TimedQueue.Queue.{priority_queue_init, set_link}
use ostrichserver.EventLoop.Thread.{
  Event, Thread, turned, main_event_loop, thread_init, postponed_enqueue,
}
use ostrichserver.EventLoop.Queued.{occurs, set_link_self}
use ostrichserver.EventLoop.Polling.{
  OnlyPoll, arrivals, last_batch, last_batch-cong, Polls, turns-Polled,
}

module _ (handler : ℕ → Thread → Thread) (quiet : (e : ℕ) (s : Thread) → handler e s ≡ s)
    (poll : ℕ) where
  -- the thread that `thread_init` leaves
  abbrev started : (ℕ → Option ℕ) → (ℕ → Event) → Thread
  started link events = record {
    collect = none;
    postponed = some poll;
    timed = priority_queue_init (set_link link poll none);
    events = λ f.
        if f == poll
        then record { idle = true; timeout = 0; redo = true }
        else if f == poll
        then record { idle = false; timeout = 0; redo = true }
        else events f;
    processed = [];
  }

  thread_init-started :
      (link : ℕ → Option ℕ) (events : ℕ → Event)
      → thread_init true poll link events ≡ started link events
  unfolding thread_init
  thread_init-started link events =
      let blank : Event = record { idle = false; timeout = 0; redo = true } in
      let fresh : Thread = record {
        collect = none;
        postponed = none;
        timed = priority_queue_init link;
        events = λ f. if f == poll then blank else events f;
        processed = [];
      } in
      let typed_as : Event → Thread = λ old. record fresh {
        events = λ f. if f == poll then record old { idle = old.idle || true } else fresh.events f;
      } in
      let self : (poll == poll) ≡ true = ground arith in
      ap
        (λ (old : Event).
          if ltb 0 old.timeout then typed_as old else postponed_enqueue poll (typed_as old))
        (ap (λ (b : Bool). if b then blank else events poll) self)

  started-OnlyPoll :
      (link : ℕ → Option ℕ) (events : ℕ → Event)
      → ((e : ℕ) → (events e).timeout ≡ 0)
      → ((e : ℕ) → (events e).redo ≡ false)
      → OnlyPoll (started link events).events poll
  started-OnlyPoll link events untimed once = record {
    poll_idle = ground arith;
    poll_redo = ground arith;
    untimed = λ e. ground (arith, untimed e);
    once_only = λ e other. ground (arith, once e);
  }

  started-Polls :
      (link : ℕ → Option ℕ) (events : ℕ → Event) (future : List ℕ)
      → ((e : ℕ) → (events e).timeout ≡ 0)
      → ((e : ℕ) → (events e).redo ≡ false)
      → ((e : ℕ) → occurs e (poll ∷ future) ≤ 1)
      → Polls poll (started link events) [] (poll ∷ []) future
  started-Polls link events future untimed once distinct = record {
    queued = record {
      collects = refl;
      postpones = (refl, set_link_self link poll none);
      once = λ e. ground arith;
    };
    none_timed = λ i. get_or-replicate 10 i none;
    fields = started-OnlyPoll link events untimed once;
    distinct = λ e. omega (arith, distinct e);
    polling = ground arith;
  }

  -- A thread from its start: `thread_init`, and any number of turns of the loop, in which events arrive that
  -- are not timed, not to be done again, and each pushed once. Handlers are taken to leave the variables of
  -- the thread alone. With more fuel than events, every turn ends; the polling event has been processed
  -- once in each turn, and every other event that arrived exactly once, but for those of the last turn,
  -- which wait for the next one.
  pub main_event_loop-Polls :
      (link : ℕ → Option ℕ) (events : ℕ → Event) (turns : List (ℕ × List ℕ)) (fuel : ℕ)
      → ((e : ℕ) → (events e).timeout ≡ 0)
      → ((e : ℕ) → (events e).redo ≡ false)
      → ((e : ℕ) → occurs e (poll ∷ arrivals turns) ≤ 1)
      → length (arrivals turns) + 1 < fuel
      → (s' : Thread) × (main_event_loop handler fuel turns (thread_init true poll link events)
          ≡ turned s')
        × (occurs poll s'.processed ≡ length turns)
        × ((e : ℕ)
            → e ≢ poll
            → occurs e s'.processed + occurs e (last_batch [] turns) ≡ occurs e (arrivals turns))
  main_event_loop-Polls link events turns fuel untimed once distinct h =
      let (s', run, after) =
        turns-Polled handler quiet poll turns (started link events) [] (poll ∷ []) fuel
          (started-Polls link events (arrivals turns) untimed once distinct) (omega arith) in
      (
        s',
        ap (main_event_loop handler fuel turns) (thread_init-started link events) ∙ run,
        omega (arith, after.each_turn),
        λ e other.
            let absent : occurs e (poll ∷ []) ≡ 0 = ground arith in
            omega
              (arith, after.in_turn e other, absent, last_batch-cong e (poll ∷ []) [] turns absent),
      )
