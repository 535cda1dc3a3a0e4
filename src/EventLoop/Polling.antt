-- ===== src/EventLoop/Polling.antt =====
-- The polling event of a thread over all turns of its loop.
use ostrichserver.Base.{
  ℕ, ◌+◌, ◌≤◌, ◌<◌, true, false, List, [], ◌∷◌, ◌++◌, ◌≡◌, ◌≢◌, ◌⊎◌, inl, inr, refl, sym, ap, ◌∙◌,
  arith, ◌==◌, length, Bool-cases, subst, length-append,
}
use ostrichserver.EventLoop.Thread.{Event, Thread, turned, then_turns, main_event_loop}
use ostrichserver.EventLoop.Queued.{occurs, Queued}
use ostrichserver.EventLoop.Order.{
  put_onto, prompt, postponed_by, again, Plain, occurs-put_onto, occurs-append, occurs-prompt,
  occurs-again,
}
use ostrichserver.EventLoop.Turns.{NoneTimed, Arrive, Turned, turn-Turned}

-- No event is timed, and only the polling event, which is idle, is to be done again.
pub record OnlyPoll (events : ℕ → Event) (poll : ℕ) : Type 0 where
  pub poll_idle : (events poll).idle ≡ true
  pub poll_redo : (events poll).redo ≡ true
  pub untimed : (e : ℕ) → (events e).timeout ≡ 0
  pub once_only : (e : ℕ) → e ≢ poll → (events e).redo ≡ false

-- the events of all turns, and those of the last turn or `zs`
abbrev pub arrivals : List (ℕ × List ℕ) → List ℕ
arrivals [] = []
arrivals ((msec, zs) ∷ turns) = zs ++ arrivals turns

abbrev pub last_batch : List ℕ → List (ℕ × List ℕ) → List ℕ
last_batch zs [] = zs
last_batch zs ((msec, ys) ∷ turns) = last_batch ys turns

occurs-le-length : (e : ℕ) (xs : List ℕ) → occurs e xs ≤ length xs
occurs-le-length e [] = omega arith
occurs-le-length e (x ∷ xs) = ground (arith, occurs-le-length e xs)

length-put_onto : (xs qs : List ℕ) → length (put_onto xs qs) ≡ length xs + length qs
length-put_onto [] qs = omega arith
length-put_onto (x ∷ xs) qs = omega (arith, length-put_onto xs (x ∷ qs))

module _ (events : ℕ → Event) (poll : ℕ) (o : OnlyPoll events poll) where
  once_only-at : (e : ℕ) → ((events e).redo ≡ false) ⊎ (e ≡ poll)
  once_only-at e = elim (Bool-cases (e == poll)) [
    | inl same ↦ inr (ground arith)
    | inr other ↦ inl (o.once_only e (ground arith))
  ]

  all-Plain : (xs : List ℕ) → Plain events xs
  all-Plain [] = tt
  all-Plain (x ∷ xs) = (
    elim (once_only-at x) [
      | inl once ↦ elim (Bool-cases (events x).idle) [
        | inl lazy ↦ inl lazy
        | inr now ↦ inr (now, o.untimed x, once)
      ]
      | inr same ↦ inl (rw same o.poll_idle)
    ],
    all-Plain xs,
  )

  poll-not-prompt : (xs : List ℕ) → occurs poll (prompt events xs) ≡ 0
  unfolding prompt
  poll-not-prompt [] = refl
  poll-not-prompt (x ∷ xs) = elim (Bool-cases (x == poll)) [
    | inl same ↦ let e : x ≡ poll = ground arith in rw e (rw o.poll_idle (poll-not-prompt xs))
    | inr other ↦ elim (Bool-cases (events x).idle) [
      | inl lazy ↦ rw lazy (poll-not-prompt xs)
      | inr now ↦ rw now (rw other (omega (arith, poll-not-prompt xs)))
    ]
  ]

  length-again : (ws qs : List ℕ) → length (again events ws qs) ≡ occurs poll ws + length qs
  unfolding again
  length-again [] qs = omega arith
  length-again (w ∷ ws) qs = elim (Bool-cases (w == poll)) [
    | inl same ↦
        let e : w ≡ poll = ground arith in
        rw e (rw o.poll_redo (ground (arith, length-again ws (poll ∷ qs))))
    | inr other ↦
        let once = o.once_only w (ground arith) in
        rw (once, other) (ground (arith, length-again ws qs))
  ]

-- The thread is ready for a turn: the polling event is queued, and no event is there or still to come twice.
pub record Polls (poll : ℕ) (s : Thread) (xs ys future : List ℕ) : Type 0 where
  pub queued : Queued s xs ys
  pub none_timed : NoneTimed s.timed.buckets
  pub fields : OnlyPoll s.events poll
  pub distinct : (e : ℕ) → occurs e xs + occurs e ys + occurs e future ≤ 1
  pub polling : occurs poll xs + occurs poll ys ≡ 1

-- What a number of turns has done: the polling event was processed in each, and any other event as often as
-- it was queued and arrived, but for what waits.
pub record Polled (poll : ℕ) (s : Thread) (xs ys : List ℕ) (turns : List (ℕ × List ℕ)) (s' : Thread)
    : Type 0 where
  pub each_turn : occurs poll s'.processed ≡ occurs poll s.processed + length turns
  pub in_turn :
      (e : ℕ)
      → e ≢ poll
      → occurs e s'.processed + occurs e (last_batch (xs ++ ys) turns)
        ≡ occurs e s.processed + occurs e xs + occurs e ys + occurs e (arrivals turns)

pub last_batch-cong :
    (e : ℕ) (xs ys : List ℕ) (turns : List (ℕ × List ℕ))
    → occurs e xs ≡ occurs e ys
    → occurs e (last_batch xs turns) ≡ occurs e (last_batch ys turns)
last_batch-cong e xs ys [] h = h
last_batch-cong e xs ys ((msec, zs) ∷ turns) h = refl

-- the queue behind a turn
abbrev next_queue : Thread → List ℕ → List ℕ → List ℕ → List ℕ
next_queue s xs ys zs = again s.events (postponed_by s.events xs ys) (put_onto zs [])

module _ (s : Thread) (poll : ℕ) (o : OnlyPoll s.events poll) (xs ys zs : List ℕ) where
  next-ne-poll : (e : ℕ) → e ≢ poll → occurs e (next_queue s xs ys zs) ≡ occurs e zs
  next-ne-poll e other =
      let counted = occurs-again s.events e (postponed_by s.events xs ys) (put_onto zs []) in
      ground (arith, counted, occurs-put_onto e zs [], o.once_only e other)

  postponed_poll : occurs poll (postponed_by s.events xs ys) ≡ occurs poll xs + occurs poll ys
  postponed_poll =
      omega (arith, occurs-prompt s.events poll xs ys, poll-not-prompt s.events poll o xs)

  next-poll : occurs poll (next_queue s xs ys zs) ≡ occurs poll xs + occurs poll ys + occurs poll zs
  next-poll =
      let counted = occurs-again s.events poll (postponed_by s.events xs ys) (put_onto zs []) in
      ground (arith, counted, occurs-put_onto poll zs [], o.poll_redo, postponed_poll)

  next-le : (e : ℕ) → occurs e (next_queue s xs ys zs) ≤ occurs e xs + occurs e ys + occurs e zs
  next-le e = elim (Bool-cases (e == poll)) [
    | inl same ↦ let eq : e ≡ poll = ground arith in rw eq (omega (arith, next-poll))
    | inr other ↦ omega (arith, next-ne-poll e (ground arith))
  ]

  length-next : length (next_queue s xs ys zs) ≡ occurs poll xs + occurs poll ys + length zs
  length-next = omega (
    arith,
    length-again s.events poll o (postponed_by s.events xs ys) (put_onto zs []),
    postponed_poll,
    length-put_onto zs [],
  )

module _ (handler : ℕ → Thread → Thread) (quiet : (e : ℕ) (s : Thread) → handler e s ≡ s)
    (poll : ℕ) where
  arrive :
      (s : Thread) (xs ys zs future : List ℕ)
      → Polls poll s xs ys (zs ++ future)
      → Arrive zs [] (postponed_by s.events xs ys)
  arrive s xs ys zs future p e =
      omega (arith, occurs-prompt s.events e xs ys, p.distinct e, occurs-append e zs future)

  -- A turn leaves the thread ready for the next one.
  turn-Polls :
      (s s' : Thread) (xs ys zs future : List ℕ)
      → Polls poll s xs ys (zs ++ future)
      → Turned handler quiet s xs ys zs s'
      → Polls poll s' (next_queue s xs ys zs) [] future
  turn-Polls s s' xs ys zs future p t = record {
    queued = t.queued;
    none_timed = t.none_timed;
    fields = subst (λ ev. OnlyPoll ev poll) (sym t.unchanged) p.fields;
    distinct = λ e.
        omega (arith, next-le s poll p.fields xs ys zs e, p.distinct e, occurs-append e zs future);
    polling = omega (
      arith,
      next-poll s poll p.fields xs ys zs,
      p.polling,
      p.distinct poll,
      occurs-append poll zs future,
    );
  }

  turn-counts :
      (s s' : Thread) (xs ys zs : List ℕ) (e : ℕ)
      → Turned handler quiet s xs ys zs s'
      → occurs e s'.processed ≡ occurs e s.processed + occurs e xs + occurs e ys
  turn-counts s s' xs ys zs e t =
      let ws = postponed_by s.events xs ys in
      rw t.in_order (
        omega (
          arith,
          occurs-append e s.processed (prompt s.events xs ++ ws),
          occurs-append e (prompt s.events xs) ws,
          occurs-prompt s.events e xs ys,
        ))

  -- What any number of turns does on a thread that is ready for them.
  pub turns-Polled :
      (turns : List (ℕ × List ℕ)) (s : Thread) (xs ys : List ℕ) (fuel : ℕ)
      → Polls poll s xs ys (arrivals turns)
      → length xs + length ys + length (arrivals turns) < fuel
      → (s' : Thread) × (main_event_loop handler fuel turns s ≡ turned s')
        × Polled poll s xs ys turns s'
  unfolding main_event_loop
  turns-Polled [] s xs ys fuel p h = (
    s,
    refl,
    record { each_turn = omega arith; in_turn = λ e other. omega (arith, occurs-append e xs ys) },
  )
  turns-Polled ((msec, zs) ∷ turns) s xs ys fuel p h =
      let room = length-append zs (arrivals turns) in
      let (s1, run, t) =
        turn-Turned handler quiet s xs ys zs fuel msec p.queued
          (all-Plain s.events poll p.fields xs) p.none_timed (arrive s xs ys zs (arrivals turns) p)
          (omega arith) in
      let queue = next_queue s xs ys zs in
      let (s', runs, after) =
        turns-Polled turns s1 queue [] fuel (turn-Polls s s1 xs ys zs (arrivals turns) p t) (
          omega (
            arith,
            room,
            length-next s poll p.fields xs ys zs,
            p.polling,
            occurs-le-length poll xs,
            occurs-le-length poll ys,
          )) in
      (
        s',
        ap (then_turns (main_event_loop handler fuel turns)) run ∙ runs,
        record {
          each_turn = omega (arith, after.each_turn, turn-counts s s1 xs ys zs poll t, p.polling);
          in_turn = λ e other. omega (
            arith,
            after.in_turn e other,
            turn-counts s s1 xs ys zs e t,
            next-ne-poll s poll p.fields xs ys zs e other,
            occurs-append e zs (arrivals turns),
            last_batch-cong e (queue ++ []) zs turns (
                omega
                  (arith, occurs-append e queue [], next-ne-poll s poll p.fields xs ys zs e other)),
          );
        },
      )
