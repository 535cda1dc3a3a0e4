-- ===== src/EventLoop/Loops.antt =====
-- What the loops of a turn do, where the handlers leave the variables of the thread alone.
use mathlib.Core.List.{append_assoc, append-nil}
use ostrichserver.Base.{
  ℕ, zero, suc, ◌<◌, true, false, List, [], ◌∷◌, ◌++◌, none, some, ◌≡◌, inl, inr, refl, sym, ap,
  ◌∙◌, arith, length, Bool-cases,
}
use ostrichserver.EventLoop.Thread.{
  Thread, write_link, collectqueue_enqueue, postponed_enqueue, thread_event_process, dispatch,
  while_dequeued, collect_off, postponed_off, collect_loop, idle_loop,
}
use ostrichserver.EventLoop.Queued.{
  Queued, collect_taken, postponed_taken, write_link-Queued, collect_taken-Queued,
  postponed_taken-Queued, collectqueue_enqueue-Queued, postponed_enqueue-Queued,
}
use ostrichserver.EventLoop.Order.{prompt, postponed_by, again, Plain}

-- What a loop leaves alone: the fields of the events and the buckets.
pub record Alike (s s' : Thread) : Type 0 where
  pub same_events : s'.events ≡ s.events
  pub same_buckets : s'.timed.buckets ≡ s.timed.buckets

-- A loop has processed `xs` and leaves the queues `qs` and `ws`.
abbrev pub After : Thread → List ℕ → List ℕ → List ℕ → Thread → Type 0
After s xs qs ws s' = Queued s' qs ws × (s'.processed ≡ s.processed ++ xs) × Alike s s'

module _ (handler : ℕ → Thread → Thread) (quiet : (e : ℕ) (s : Thread) → handler e s ≡ s) where
  -- an event processed, where it is not to be done again
  abbrev pub logged : ℕ → Thread → Thread
  logged e s = record s { processed = s.processed ++ e ∷ [] }

  pub process-redo :
      (e : ℕ) (s : Thread)
      → (s.events e).redo ≡ true
      → thread_event_process handler e s ≡ collectqueue_enqueue e (logged e s)
  unfolding thread_event_process
  process-redo e s redo = rw (quiet e (logged e s)) (rw redo refl)

  process-once :
      (e : ℕ) (s : Thread)
      → (s.events e).redo ≡ false
      → thread_event_process handler e s ≡ logged e s
  unfolding thread_event_process
  process-once e s redo = rw (quiet e (logged e s)) (rw redo refl)

  dispatch-idle :
      (msec e : ℕ) (s : Thread)
      → (s.events e).idle ≡ true
      → dispatch handler msec e s ≡ postponed_enqueue e s
  unfolding dispatch
  dispatch-idle msec e s idle = rw idle refl

  pub dispatch-now :
      (msec e : ℕ) (s : Thread)
      → (s.events e).idle ≡ false
      → (s.events e).timeout ≡ 0
      → dispatch handler msec e s ≡ thread_event_process handler e s
  unfolding dispatch
  dispatch-now msec e s idle now = rw (idle, now) refl

  pub collect_loop-next :
      (fuel msec x : ℕ) (s : Thread)
      → s.collect ≡ some x
      → collect_loop handler (suc fuel) msec s
        ≡ collect_loop handler fuel msec (dispatch handler msec x (collect_taken x s))
  unfolding collect_loop
  collect_loop-next fuel msec x s first =
      ap
        (λ o.
          while_dequeued (λ e s'. collect_loop handler fuel msec (dispatch handler msec e s'))
            (collect_off s o))
        first

  pub collect_loop-end :
      (fuel msec : ℕ) (s : Thread)
      → s.collect ≡ none
      → collect_loop handler (suc fuel) msec s ≡ some s
  unfolding collect_loop
  collect_loop-end fuel msec s empty =
      ap
        (λ o.
          while_dequeued (λ e s'. collect_loop handler fuel msec (dispatch handler msec e s'))
            (collect_off s o))
        empty

  idle_loop-next :
      (fuel y : ℕ) (s : Thread)
      → s.postponed ≡ some y
      → idle_loop handler (suc fuel) s
        ≡ idle_loop handler fuel
            (thread_event_process handler y (write_link y none (postponed_taken y s)))
  unfolding idle_loop
  idle_loop-next fuel y s first =
      ap
        (λ o.
          while_dequeued
            (λ e s'. idle_loop handler fuel (thread_event_process handler e (write_link e none s')))
            (postponed_off s o))
        first

  idle_loop-end :
      (fuel : ℕ) (s : Thread) → s.postponed ≡ none → idle_loop handler (suc fuel) s ≡ some s
  unfolding idle_loop
  idle_loop-end fuel s empty =
      ap
        (λ o.
          while_dequeued
            (λ e s'. idle_loop handler fuel (thread_event_process handler e (write_link e none s')))
            (postponed_off s o))
        empty

  -- The first loop processes the prompt events in their order and moves the idle ones.
  pub collect_loop-After :
      (xs ys : List ℕ) (fuel msec : ℕ) (s : Thread)
      → length xs < fuel
      → Queued s xs ys
      → Plain s.events xs
      → (s' : Thread) × (collect_loop handler fuel msec s ≡ some s')
        × After s (prompt s.events xs) [] (postponed_by s.events xs ys) s'
  unfolding prompt postponed_by
  collect_loop-After xs ys zero msec s h q p = absurd (omega arith)
  collect_loop-After [] ys (suc fuel) msec s h q p = (
    s,
    collect_loop-end fuel msec s q.collects,
    (q, sym (append-nil s.processed), record { same_events = refl; same_buckets = refl }),
  )
  collect_loop-After (x ∷ xs) ys (suc fuel) msec s h q p =
      let (taken, out) = collect_taken-Queued s x xs ys q in
      let next = collect_loop-next fuel msec x s q.collects.0 in
      elim p.0 [
        | inl idle ↦
            let s1 = postponed_enqueue x (collect_taken x s) in
            let q1 = postponed_enqueue-Queued (collect_taken x s) x xs ys out taken in
            let (s', run, after) =
              collect_loop-After xs (x ∷ ys) fuel msec s1 (omega arith) q1 p.1 in
            let (q', log, alike) = after in
            rw idle (
              s',
              next
                  ∙ ap (collect_loop handler fuel msec)
                      (dispatch-idle msec x (collect_taken x s) idle)
                  ∙ run,
              (
                q',
                log,
                record { same_events = alike.same_events; same_buckets = alike.same_buckets },
              ),
            )
        | inr now ↦
            let s1 = logged x (collect_taken x s) in
            let q1 : Queued s1 xs ys = record {
              collects = taken.collects;
              postpones = taken.postpones;
              once = taken.once;
            } in
            let (s', run, after) = collect_loop-After xs ys fuel msec s1 (omega arith) q1 p.1 in
            let (q', log, alike) = after in
            rw now.0 (
              s',
              next
                  ∙ ap (collect_loop handler fuel msec) (
                      dispatch-now msec x (collect_taken x s) now.0 now.1
                      ∙ process-once x (collect_taken x s) now.2)
                  ∙ run,
              (
                q',
                log ∙ append_assoc s.processed (x ∷ []) (prompt s.events xs),
                record { same_events = alike.same_events; same_buckets = alike.same_buckets },
              ),
            )
      ]

  -- The second loop processes the postponed events in their order and puts those that are to be done again
  -- in front of the collected ones.
  pub idle_loop-After :
      (ws qs : List ℕ) (fuel : ℕ) (s : Thread)
      → length ws < fuel
      → Queued s qs ws
      → (s' : Thread) × (idle_loop handler fuel s ≡ some s')
        × After s ws (again s.events ws qs) [] s'
  unfolding again
  idle_loop-After ws qs zero s h q = absurd (omega arith)
  idle_loop-After [] qs (suc fuel) s h q = (
    s,
    idle_loop-end fuel s q.postpones,
    (q, sym (append-nil s.processed), record { same_events = refl; same_buckets = refl }),
  )
  idle_loop-After (y ∷ ws) qs (suc fuel) s h q =
      let (taken, out) = postponed_taken-Queued s y qs ws q in
      let unlinked = write_link-Queued (postponed_taken y s) y none qs ws out taken in
      let s0 = write_link y none (postponed_taken y s) in
      let q0 : Queued (logged y s0) qs ws = record {
        collects = unlinked.collects;
        postpones = unlinked.postpones;
        once = unlinked.once;
      } in
      let next = idle_loop-next fuel y s q.postpones.0 in
      elim (Bool-cases (s.events y).redo) [
        | inl redo ↦
            let q1 = collectqueue_enqueue-Queued (logged y s0) y qs ws out q0 in
            let (s', run, after) =
              idle_loop-After ws (y ∷ qs) fuel (collectqueue_enqueue y (logged y s0)) (omega arith)
                q1 in
            let (q', log, alike) = after in
            rw redo (
              s',
              next ∙ ap (idle_loop handler fuel) (process-redo y s0 redo) ∙ run,
              (
                q',
                log ∙ append_assoc s.processed (y ∷ []) ws,
                record { same_events = alike.same_events; same_buckets = alike.same_buckets },
              ),
            )
        | inr done ↦
            let (s', run, after) = idle_loop-After ws qs fuel (logged y s0) (omega arith) q0 in
            let (q', log, alike) = after in
            rw done (
              s',
              next ∙ ap (idle_loop handler fuel) (process-once y s0 done) ∙ run,
              (
                q',
                log ∙ append_assoc s.processed (y ∷ []) ws,
                record { same_events = alike.same_events; same_buckets = alike.same_buckets },
              ),
            )
      ]
