-- ===== src/Accepting/Once.antt =====
-- From `accept` to the handler: a connection is processed once.
use mathlib.Core.List.{append-nil}
use ostrichserver.Base.{
  ℕ, ◌+◌, ◌%◌, ◌^◌, ◌<◌, ◌≤◌, true, false, List, [], ◌∷◌, ◌++◌, Option, some, ◌≡◌, ◌≢◌, ap, ◌∙◌,
  arith, ◌==◌, if◌then◌else◌, length, length-append,
}
use ostrichserver.EventLoop.Thread.{Event, Thread, turned, thread_init, main_event_loop}
use ostrichserver.EventLoop.Queued.{occurs}
use ostrichserver.EventLoop.Order.{occurs-append}
use ostrichserver.EventLoop.Starting.{main_event_loop-Polls}
use ostrichserver.Accepting.Schedule.{Server, server_init, accept_block_loop}
use ostrichserver.Accepting.Shares.{
  share, occurs-share, occurs-share-le, length-share-le, accept_block_loop-Shared,
}

module _ (handler : ℕ → Thread → Thread) (quiet : (e : ℕ) (s : Thread) → handler e s ≡ s)
    (link : ℕ → Option ℕ) (events : ℕ → Event) (untimed : (e : ℕ) → (events e).timeout ≡ 0)
    (once : (e : ℕ) → (events e).redo ≡ false) where
  -- the thread `t` with the polling event `poll` and the fuel `fuel` processes the event `e` so many times,
  -- and its polling event twice, in two turns of which the first finds the events `zs`
  abbrev pub ProcessedBy : ℕ → ℕ → ℕ → ℕ → List ℕ → ℕ → ℕ → Type 0
  ProcessedBy fuel msec msec' poll zs e k =
      (th : Thread) × (main_event_loop handler fuel ((msec, zs) ∷ (msec', []) ∷ [])
          (thread_init true poll link events)
        ≡ turned th)
      × (occurs e th.processed ≡ k)
      × (occurs poll th.processed ≡ 2)

  drained :
      (fuel msec msec' poll e k : ℕ) (zs : List ℕ)
      → ((f : ℕ) → occurs f (poll ∷ zs) ≤ 1)
      → length zs + 1 < fuel
      → occurs e zs ≡ k
      → e ≢ poll
      → ProcessedBy fuel msec msec' poll zs e k
  drained fuel msec msec' poll e k zs distinct enough counted other =
      let (th, run, polled, processed) =
        main_event_loop-Polls handler quiet poll link events ((msec, zs) ∷ (msec', []) ∷ []) fuel
          untimed once (λ f. omega (arith, distinct f, occurs-append f zs []))
          (omega (arith, length-append zs [])) in
      (th, run, omega (arith, processed e other, occurs-append e zs [], counted), polled)

  -- From `accept` to the handler. When `accept` has given some connections, fewer than 2^31 and each with its
  -- own event, the loop has scheduled them all, and each thread takes what is on its external queue into
  -- its loop, then the thread whose turn the connection was, counted round `n` threads, has processed its
  -- event exactly once after two turns, and any other thread has not processed it. Events are taken to
  -- have no timeout, and handlers to leave the variables of the thread alone.
  pub accepted_once :
      (n fuel msec msec' e poll t : ℕ) (xs ys : List ℕ)
      → 0 < n
      → length (xs ++ e ∷ ys) < 2 ^ 31
      → length (xs ++ e ∷ ys) + 1 < fuel
      → ((f : ℕ) → occurs f (poll ∷ (xs ++ e ∷ ys)) ≤ 1)
      → (s : Server) × (accept_block_loop (xs ++ e ∷ ys) (server_init n) ≡ some s)
        × ProcessedBy fuel msec msec' poll (s.externals t) e (if t == length xs % n then 1 else 0)
  accepted_once n fuel msec msec' e poll t xs ys pos_n room enough distinct =
      let es = xs ++ e ∷ ys in
      let (s, run, shared) = accept_block_loop-Shared n 0 es (λ u. []) pos_n (omega arith) in
      let mine : s.externals t ≡ share n t 0 es = shared.shares t ∙ append-nil (share n t 0 es) in
      let other : e ≢ poll = λ same. ground (arith, distinct e, occurs-append e xs (e ∷ ys)) in
      let here : occurs e es ≤ 1 = ground (arith, distinct e) in
      (
        s,
        run,
        rw mine (
            drained fuel msec msec' poll e (if t == length xs % n then 1 else 0) (share n t 0 es)
              (λ f. omega (arith, distinct f, occurs-share-le n t f 0 es))
              (omega (arith, length-share-le n t 0 es))
              (occurs-share n t xs e 0 ys here
                ∙ ap (λ (k : ℕ). if t == k % n then 1 else 0) (omega arith))
              other),
      )
