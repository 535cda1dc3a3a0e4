-- ===== src/EventLoop/Thread.antt =====
-- The queues of a thread and its event loop (thread.c, thread.h, event.h, queue.c). An event is its address,
-- and `ln.next` of all events is the `link` of the timed queue, since every queue uses that field. What the
-- handler of an event does to the thread is a parameter.
use ostrichserver.Base.{
  ℕ, zero, suc, Bool, true, false, List, [], ◌∷◌, ◌++◌, Option, none, some, ltb, ◌==◌, ◌||◌,
  if◌then◌else◌,
}
use ostrichserver.TimedQueue.Queue.{
  TimedQueue, priority_queue_init, set_link, head_of, Checked, checked, null_bucket, running,
  event_priority_enqueue, priority_queue_check,
}

-- `event`: whether `type` has `EVENT_IDLE`, `timeout` where it is above 0 and else 0, and whether `redo` is
-- not 0
pub record Event : Type 0 where
  pub idle : Bool
  pub timeout : ℕ
  pub redo : Bool

-- the variables of a thread, and the events that it has processed in their order
pub record Thread : Type 0 where
  pub collect : Option ℕ
  pub postponed : Option ℕ
  pub timed : TimedQueue
  pub events : ℕ → Event
  pub processed : List ℕ

-- `e->ln.next = v`
abbrev pub write_link : ℕ → Option ℕ → Thread → Thread
write_link e v s = record s { timed = record s.timed { link = set_link s.timed.link e v } }

-- `collectqueue_enqueue`
abbrev pub collectqueue_enqueue : ℕ → Thread → Thread
collectqueue_enqueue e s = record (write_link e s.collect s) { collect = some e }

-- `collectqueue_dequeue`, with the link of the queue; `none` is NULL
abbrev pub collect_off : Thread → Option ℕ → Thread × Option ℕ
collect_off s none = (s, none)
collect_off s (some e) = (record (write_link e none s) { collect = s.timed.link e }, some e)

abbrev pub collectqueue_dequeue : Thread → Thread × Option ℕ
collectqueue_dequeue s = collect_off s s.collect

-- `localq_enqueue` of `postponedqueue`
abbrev pub postponed_enqueue : ℕ → Thread → Thread
postponed_enqueue e s = record (write_link e s.postponed s) { postponed = some e }

-- `localq_dequeue` of `postponedqueue`, with the link of the queue
abbrev pub postponed_off : Thread → Option ℕ → Thread × Option ℕ
postponed_off s none = (s, none)
postponed_off s (some e) = (record (write_link e none s) { postponed = s.timed.link e }, some e)

abbrev pub postponed_dequeue : Thread → Thread × Option ℕ
postponed_dequeue s = postponed_off s s.postponed

-- `e->type |= eventtype`, where `idle` is whether `eventtype` has `EVENT_IDLE`
abbrev pub typed : ℕ → Bool → Thread → Thread
typed e idle s =
    let old = s.events e in
    record s { events = λ f. if f == e then record old { idle = old.idle || idle } else s.events f }

-- `local_schedule`
unfoldable pub local_schedule : ℕ → Bool → Thread → Thread
local_schedule e idle s =
    if ltb 0 (s.events e).timeout then typed e idle s else postponed_enqueue e (typed e idle s)

-- `thread_init`, where `poll` is the event that it allocates; `none` is `evt->eventbase` left NULL
unfoldable pub thread_init : Bool → ℕ → (ℕ → Option ℕ) → (ℕ → Event) → Thread
unfolding local_schedule
thread_init pollbase poll link events =
    let fresh : Thread = record {
      collect = none;
      postponed = none;
      timed = priority_queue_init link;
      events =
          λ f. if f == poll then record { idle = false; timeout = 0; redo = true } else events f;
      processed = [];
    } in
    if pollbase then local_schedule poll true fresh else record fresh { events = events }

-- the loop of `thread_event_dequeue` over the events that `atomic_list_popall` gives
unfoldable pub collect_all : List ℕ → Thread → Thread
collect_all [] s = s
collect_all (e ∷ es) s = collect_all es (collectqueue_enqueue e (write_link e none s))

-- the test of the external queue, and `thread_event_dequeue`
abbrev pub dequeueall : List ℕ → Thread → Thread
dequeueall [] s = s
dequeueall (e ∷ es) s = collect_all (e ∷ es) s

-- How a turn of the loop ends: it is done, it reads through NULL, or it still runs when the fuel is used up.
pub data Turn : Type 0 where
  turned : Thread → Turn
  faults : Turn
  runs_on : Turn

-- the next turn, if there is one
abbrev pub then_turns : (Thread → Turn) → Turn → Turn
then_turns rest (turned s) = rest s
then_turns rest faults = faults
then_turns rest runs_on = runs_on

-- a loop that ends when the event dequeued is NULL
abbrev pub while_dequeued : (ℕ → Thread → Option Thread) → Thread × Option ℕ → Option Thread
while_dequeued body (s, none) = some s
while_dequeued body (s, some e) = body e s

module _ (handler : ℕ → Thread → Thread) where
  -- the end of `thread_event_process`
  abbrev pub redone : ℕ → Thread → Thread
  redone e s = if (s.events e).redo then collectqueue_enqueue e s else s

  -- `thread_event_process`
  unfoldable pub thread_event_process : ℕ → Thread → Thread
  thread_event_process e s = redone e (handler e (record s { processed = s.processed ++ e ∷ [] }))

  -- the body of the first loop of `thread_main_event_loop`
  unfoldable pub dispatch : ℕ → ℕ → Thread → Thread
  unfolding thread_event_process
  dispatch msec e s =
      if (s.events e).idle
      then postponed_enqueue e s
      else if ltb 0 (s.events e).timeout
      then record s { timed = event_priority_enqueue (λ f. (s.events f).timeout) e msec s.timed }
      else thread_event_process e s

  -- `while (e = collectqueue.dequeue())`; `none` if it still runs
  unfoldable pub collect_loop : ℕ → ℕ → Thread → Option Thread
  unfolding dispatch
  collect_loop zero msec s = none
  collect_loop (suc fuel) msec s =
      while_dequeued (λ e s'. collect_loop fuel msec (dispatch msec e s')) (collectqueue_dequeue s)

  -- `while (localevent = postponedqueue.dequeue())`
  unfoldable pub idle_loop : ℕ → Thread → Option Thread
  unfolding thread_event_process
  idle_loop zero s = none
  idle_loop (suc fuel) s =
      while_dequeued (λ e s'. idle_loop fuel (thread_event_process e (write_link e none s')))
        (postponed_dequeue s)

  -- the loop of `priority_queue_process_ready`, which reads the links that the handlers leave
  unfoldable pub ready_events : ℕ → Option ℕ → Thread → Turn
  unfolding thread_event_process
  ready_events zero e s = runs_on
  ready_events (suc fuel) none s = turned s
  ready_events (suc fuel) (some e) s = elim (s.timed.link e) [
    | none ↦ faults
    | some next ↦ ready_events fuel (some next) (thread_event_process next s)
  ]

  -- `priority_queue_process_ready` behind `priority_queue_check`
  abbrev pub after_check : ℕ → Thread → Checked → Turn
  after_check fuel s (checked q) = ready_events fuel (head_of q 0) (record s { timed = q })
  after_check fuel s null_bucket = faults
  after_check fuel s running = runs_on

  -- the end of a turn, behind the loop over the idle events
  unfoldable pub after_idle : ℕ → ℕ → Option Thread → Turn
  unfolding ready_events
  after_idle fuel msec none = runs_on
  after_idle fuel msec (some s) =
      after_check fuel s (priority_queue_check (λ e. (s.events e).timeout) fuel msec s.timed)

  -- the part of a turn behind the first loop
  unfoldable pub after_collect : ℕ → ℕ → List ℕ → Option Thread → Turn
  unfolding idle_loop after_idle
  after_collect fuel msec popped none = runs_on
  after_collect fuel msec popped (some s) =
      after_idle fuel msec (idle_loop fuel (dequeueall popped s))

  -- one turn of `for (;;)` in `thread_main_event_loop`, with the time in milliseconds and the events that
  -- stand in the external queue, the one pushed last first
  unfoldable pub turn : ℕ → ℕ → List ℕ → Thread → Turn
  unfolding collect_loop after_collect
  turn fuel msec popped s = after_collect fuel msec popped (collect_loop fuel msec s)

  -- `thread_main_event_loop` for as many turns as there are times and batches of events
  unfoldable pub main_event_loop : ℕ → List (ℕ × List ℕ) → Thread → Turn
  unfolding turn
  main_event_loop fuel [] s = turned s
  main_event_loop fuel ((msec, popped) ∷ rest) s =
      then_turns (main_event_loop fuel rest) (turn fuel msec popped s)
