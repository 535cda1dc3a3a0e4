-- ===== src/EventLoop/Redo.antt =====
-- An event that is to be done again and is not idle.
use mathlib.Core.List.{append_assoc, append-nil}
use ostrichserver.Base.{
  ℕ, zero, suc, true, false, List, [], ◌∷◌, ◌++◌, Option, none, some, ◌≡◌, inl, inr, refl, sym, ap,
  ◌∙◌, Option-cases, replicate,
}
use ostrichserver.EventLoop.Thread.{
  Thread, collectqueue_enqueue, collectqueue_dequeue, collect_off, dispatch, runs_on, collect_loop,
  after_collect, turn,
}
use ostrichserver.EventLoop.Queued.{collect_taken}
use ostrichserver.EventLoop.Loops.{
  logged, process-redo, dispatch-now, collect_loop-next, collect_loop-end,
}

module _ (handler : ℕ → Thread → Thread) where
  -- one round of the first loop, with what `collectqueue.dequeue()` gives; none where that is NULL
  abbrev pub collect_round : ℕ → Thread × Option ℕ → Thread
  collect_round msec (s, none) = s
  collect_round msec (s, some e) = dispatch handler msec e s

  -- the thread behind `n` rounds of the first loop, or at the end of the loop if it ends before
  unfoldable pub collect_rounds : ℕ → ℕ → Thread → Thread
  collect_rounds zero msec s = s
  collect_rounds (suc n) msec s =
      collect_rounds n msec (collect_round msec (collectqueue_dequeue s))

  collect_rounds-next :
      (n msec x : ℕ) (s : Thread)
      → s.collect ≡ some x
      → collect_rounds (suc n) msec s
        ≡ collect_rounds n msec (dispatch handler msec x (collect_taken x s))
  unfolding collect_rounds
  collect_rounds-next n msec x s first =
      ap (λ o. collect_rounds n msec (collect_round msec (collect_off s o))) first

  collect_rounds-end : (n msec : ℕ) (s : Thread) → s.collect ≡ none → collect_rounds n msec s ≡ s
  unfolding collect_rounds
  collect_rounds-end zero msec s empty = refl
  collect_rounds-end (suc n) msec s empty =
      ap (λ o. collect_rounds n msec (collect_round msec (collect_off s o))) empty
      ∙ collect_rounds-end n msec s empty

-- The loop has ended where nothing is collected.
abbrev pub ended : Option ℕ → Thread → Option Thread
ended none s = some s
ended (some e) s = none

abbrev pub unless_collected : Thread → Option Thread
unless_collected s = ended s.collect s

-- What `n` rounds leave of the thread `s` that process `e` again and again.
pub record Repeats (e n : ℕ) (s s' : Thread) : Type 0 where
  pub again_first : s'.collect ≡ some e
  pub log : s'.processed ≡ s.processed ++ replicate n e
  pub postponed_waits : s'.postponed ≡ s.postponed
  pub timed_wait : s'.timed.buckets ≡ s.timed.buckets
  pub same_events : s'.events ≡ s.events

module _ (handler : ℕ → Thread → Thread) (quiet : (e : ℕ) (s : Thread) → handler e s ≡ s) where
  loop_empty :
      (n msec : ℕ) (s : Thread)
      → s.collect ≡ none
      → collect_loop handler (suc n) msec s ≡ unless_collected (collect_rounds handler n msec s)
  loop_empty n msec s empty =
      collect_loop-end handler quiet n msec s empty
      ∙ sym (
          ap unless_collected (collect_rounds-end handler n msec s empty)
          ∙ ap (λ o. ended o s) empty)

  -- The loop on fuel makes the rounds, and ends where they leave nothing collected.
  collect_loop-collect_rounds :
      (n msec : ℕ) (s : Thread)
      → collect_loop handler (suc n) msec s ≡ unless_collected (collect_rounds handler n msec s)
  unfolding collect_loop collect_rounds
  collect_loop-collect_rounds zero msec s = elim (Option-cases s.collect) [
    | inl empty ↦ loop_empty zero msec s empty
    | inr (x, first) ↦
        collect_loop-next handler quiet zero msec x s first ∙ sym (ap (λ o. ended o s) first)
  ]
  collect_loop-collect_rounds (suc n) msec s = elim (Option-cases s.collect) [
    | inl empty ↦ loop_empty (suc n) msec s empty
    | inr (x, first) ↦
        collect_loop-next handler quiet (suc n) msec x s first
        ∙ collect_loop-collect_rounds n msec (dispatch handler msec x (collect_taken x s))
        ∙ sym (ap unless_collected (collect_rounds-next handler n msec x s first))
  ]

  collect_rounds-Repeats :
      (n msec e : ℕ) (s : Thread)
      → s.collect ≡ some e
      → (s.events e).idle ≡ false
      → (s.events e).timeout ≡ 0
      → (s.events e).redo ≡ true
      → Repeats e n s (collect_rounds handler n msec s)
  unfolding collect_rounds
  collect_rounds-Repeats zero msec e s first now untimed redo = record {
    again_first = first;
    log = sym (append-nil s.processed);
    postponed_waits = refl;
    timed_wait = refl;
    same_events = refl;
  }
  collect_rounds-Repeats (suc n) msec e s first now untimed redo =
      let s1 = collect_taken e s in
      let s2 = collectqueue_enqueue e (logged handler quiet e s1) in
      let here : collect_rounds handler (suc n) msec s ≡ collect_rounds handler n msec s2 =
        collect_rounds-next handler n msec e s first
        ∙ ap (collect_rounds handler n msec) (
            dispatch-now handler quiet msec e s1 now untimed
            ∙ process-redo handler quiet e s1 redo) in
      let r = collect_rounds-Repeats n msec e s2 refl now untimed redo in
      rw here (record {
        again_first = r.again_first;
        log = r.log ∙ append_assoc s.processed (e ∷ []) (replicate n e);
        postponed_waits = r.postponed_waits;
        timed_wait = r.timed_wait;
        same_events = r.same_events;
      })

  collect_loop-none :
      (n msec e : ℕ) (s : Thread)
      → Repeats e n s (collect_rounds handler n msec s)
      → collect_loop handler (suc n) msec s ≡ none
  collect_loop-none n msec e s r =
      collect_loop-collect_rounds n msec s
      ∙ ap (λ o. ended o (collect_rounds handler n msec s)) r.again_first

  -- An event that is to be done again, has no timeout and is not idle, once it is the next one collected,
  -- keeps the turn from ending. Behind any number `n` of rounds of the first loop it is the next one
  -- collected again, and what was processed in these rounds is this event `n` times and nothing else;
  -- what is postponed and what is timed waits as before. The loop with `n + 1` rounds of fuel makes these
  -- rounds and has not ended, and so the turn has not either. Handlers are taken to leave the variables
  -- of the thread alone.
  pub turn-runs_on :
      (n msec e : ℕ) (zs : List ℕ) (s : Thread)
      → s.collect ≡ some e
      → (s.events e).idle ≡ false
      → (s.events e).timeout ≡ 0
      → (s.events e).redo ≡ true
      → Repeats e n s (collect_rounds handler n msec s)
        × (collect_loop handler (suc n) msec s ≡ unless_collected (collect_rounds handler n msec s))
        × (turn handler (suc n) msec zs s ≡ runs_on)
  unfolding turn after_collect
  turn-runs_on n msec e zs s first now untimed redo =
      let r = collect_rounds-Repeats n msec e s first now untimed redo in
      (
        r,
        collect_loop-collect_rounds n msec s,
        ap (after_collect handler (suc n) msec zs) (collect_loop-none n msec e s r),
      )
