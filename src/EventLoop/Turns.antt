-- ===== src/EventLoop/Turns.antt =====
-- A whole turn of the loop, and how often each event is processed.
use mathlib.Core.List.{append_assoc}
use ostrichserver.Base.{
  ℕ, zero, suc, ◌+◌, ◌/◌, ◌%◌, ◌^◌, ◌≤◌, ◌<◌, List, [], ◌∷◌, ◌++◌, Option, none, some, ◌≡◌, refl,
  ap, ◌∙◌, arith, length, get_or, set, subst,
}
use ostrichserver.TimedQueue.Buckets.{idx_time}
use ostrichserver.TimedQueue.Queue.{
  TimedQueue, n_pq_list, count_bits, todo_of, Checked, checked, check_buckets, priority_queue_check,
}
use ostrichserver.EventLoop.Thread.{
  Thread, write_link, collectqueue_enqueue, collect_all, dequeueall, turned, ready_events,
  after_check, after_idle, after_collect, turn,
}
use ostrichserver.EventLoop.Queued.{
  occurs, Outside, Queued, write_link-Queued, collectqueue_enqueue-Queued,
}
use ostrichserver.EventLoop.Order.{
  put_onto, prompt, postponed_by, again, Plain, length-postponed_by,
}
use ostrichserver.EventLoop.Loops.{Alike, collect_loop-After, idle_loop-After}

-- Events that arrive are on neither queue, and each once.
abbrev pub Arrive : List ℕ → List ℕ → List ℕ → Type 0
Arrive zs qs ws = (e : ℕ) → occurs e zs + occurs e qs + occurs e ws ≤ 1

-- What `thread_event_dequeue` leaves.
abbrev Collected : Thread → List ℕ → List ℕ → List ℕ → Thread → Type 0
Collected s zs qs ws s' = Queued s' (put_onto zs qs) ws × (s'.processed ≡ s.processed) × Alike s s'

head-arrives : (z : ℕ) (zs qs ws : List ℕ) → Arrive (z ∷ zs) qs ws → Outside z qs ws
head-arrives z zs qs ws a = ground (arith, a z)

rest-arrives : (z : ℕ) (zs qs ws : List ℕ) → Arrive (z ∷ zs) qs ws → Arrive zs (z ∷ qs) ws
rest-arrives z zs qs ws a e = omega (arith, a e)

collect_all-Collected :
    (zs qs ws : List ℕ) (s : Thread)
    → Queued s qs ws
    → Arrive zs qs ws
    → Collected s zs qs ws (collect_all zs s)
unfolding collect_all
collect_all-Collected [] qs ws s q a = (q, refl, record { same_events = refl; same_buckets = refl })
collect_all-Collected (z ∷ zs) qs ws s q a =
    let out = head-arrives z zs qs ws a in
    let q1 =
      collectqueue_enqueue-Queued (write_link z none s) z qs ws out
        (write_link-Queued s z none qs ws out q) in
    let (q', log, alike) =
      collect_all-Collected zs (z ∷ qs) ws (collectqueue_enqueue z (write_link z none s)) q1
        (rest-arrives z zs qs ws a) in
    (q', log, record { same_events = alike.same_events; same_buckets = alike.same_buckets })

dequeueall-Collected :
    (zs qs ws : List ℕ) (s : Thread)
    → Queued s qs ws
    → Arrive zs qs ws
    → Collected s zs qs ws (dequeueall zs s)
dequeueall-Collected [] qs ws s q a = (q, refl, record { same_events = refl; same_buckets = refl })
dequeueall-Collected (z ∷ zs) qs ws s q a = collect_all-Collected (z ∷ zs) qs ws s q a

-- No bucket has an event.
abbrev pub NoneTimed : List (Option ℕ) → Type 0
NoneTimed buckets = (i : ℕ) → get_or buckets i none ≡ none

set-NoneTimed :
    (buckets : List (Option ℕ)) (i : ℕ) → NoneTimed buckets → NoneTimed (set buckets i none)
set-NoneTimed [] i n j = n j
set-NoneTimed (b ∷ bs) zero n zero = refl
set-NoneTimed (b ∷ bs) zero n (suc j) = n (suc j)
set-NoneTimed (b ∷ bs) (suc i) n zero = n zero
set-NoneTimed (b ∷ bs) (suc i) n (suc j) = set-NoneTimed bs i (λ k. n (suc k)) j

-- A check of empty buckets leaves them empty, and the links as they are.
Unmoved : TimedQueue → Checked → Type 0
Unmoved q r = (q' : TimedQueue) × (r ≡ checked q') × NoneTimed q'.buckets × (q'.link ≡ q.link)

check_buckets-Unmoved :
    (timeout : ℕ → ℕ) (fuel rounds i now : ℕ) (q : TimedQueue)
    → NoneTimed q.buckets
    → Unmoved q (check_buckets timeout (suc fuel) rounds i now q)
unfolding check_buckets Unmoved
check_buckets-Unmoved timeout fuel zero i now q n = (q, refl, n, refl)
check_buckets-Unmoved timeout fuel (suc rounds) i now q n =
    let q1 : TimedQueue = record q { buckets = set q.buckets i none } in
    let (q', run, n', same) =
      check_buckets-Unmoved timeout fuel rounds (i + 1) now q1 (set-NoneTimed q.buckets i n) in
    (q', rw (n i, check_buckets) run, n', same)

module _ (handler : ℕ → Thread → Thread) (quiet : (e : ℕ) (s : Thread) → handler e s ≡ s) where
  check-Unmoved :
      (timeout : ℕ → ℕ) (fuel msec : ℕ) (q : TimedQueue)
      → NoneTimed q.buckets
      → Unmoved q (priority_queue_check timeout (suc fuel) msec q)
  unfolding priority_queue_check Unmoved
  check-Unmoved timeout fuel msec q n =
      check_buckets-Unmoved timeout fuel
        (count_bits n_pq_list (todo_of (msec / idx_time 0 % 2 ^ 32) q.last_check_index)) 1 msec
        (record q {
          last_check_time = msec % 2 ^ 32;
          last_check_index = msec / idx_time 0 % 2 ^ 32;
        })
        n

  ready_events-none : (fuel : ℕ) (s : Thread) → ready_events handler (suc fuel) none s ≡ turned s
  unfolding ready_events
  ready_events-none fuel s = refl

  after_idle-none :
      (fuel msec : ℕ) (s : Thread)
      → NoneTimed s.timed.buckets
      → (q : TimedQueue) × (after_idle handler (suc fuel) msec (some s)
          ≡ turned (record s { timed = q }))
        × NoneTimed q.buckets
        × (q.link ≡ s.timed.link)
  unfolding after_idle Unmoved
  after_idle-none fuel msec s n =
      let (q, run, n', same) = check-Unmoved (λ e. (s.events e).timeout) fuel msec s.timed n in
      (
        q,
        ap (after_check handler (suc fuel) s) run
            ∙ ap (λ o. ready_events handler (suc fuel) o (record s { timed = q })) (n' 0)
            ∙ ready_events-none fuel (record s { timed = q }),
        n',
        same,
      )

  -- What a turn comes to, on a thread with the queues `xs` and `ys` and the arrivals `zs`.
  pub record Turned (s : Thread) (xs ys zs : List ℕ) (s' : Thread) : Type 0 where
    pub queued : Queued s' (again s.events (postponed_by s.events xs ys) (put_onto zs [])) []
    pub in_order : s'.processed ≡ s.processed ++ (prompt s.events xs ++ postponed_by s.events xs ys)
    pub unchanged : s'.events ≡ s.events
    pub none_timed : NoneTimed s'.timed.buckets

  -- One turn of the loop, on a thread whose two queues hold no event twice and whose timed queue holds none;
  -- each collected event is idle, or has no timeout and is not to be done again; the events that arrive are
  -- each there once and not among those that are postponed then; handlers leave the variables of the thread
  -- alone, and the fuel is greater than the number of events on the two queues. The turn ends. It processes
  -- the collected events that are not idle in their order, and then the idle ones, those collected last
  -- first, before those that were postponed already. The events that arrived are collected in the order of
  -- their pushes, behind the processed ones that are to be done again.
  pub turn-Turned :
      (s : Thread) (xs ys zs : List ℕ) (fuel msec : ℕ)
      → Queued s xs ys
      → Plain s.events xs
      → NoneTimed s.timed.buckets
      → Arrive zs [] (postponed_by s.events xs ys)
      → length xs + length ys < fuel
      → (s' : Thread) × (turn handler fuel msec zs s ≡ turned s') × Turned s xs ys zs s'
  unfolding turn after_collect
  turn-Turned s xs ys zs zero msec q p n a h = absurd (omega arith)
  turn-Turned s xs ys zs (suc fuel) msec q p n a h =
      let ws = postponed_by s.events xs ys in
      let (s1, run1, after1) =
        collect_loop-After handler quiet xs ys (suc fuel) msec s (omega arith) q p in
      let (q1, log1, alike1) = after1 in
      let s2 = dequeueall zs s1 in
      let (q2, log2, alike2) = dequeueall-Collected zs [] ws s1 q1 a in
      let (s3, run3, after3) =
        idle_loop-After handler quiet ws (put_onto zs []) (suc fuel) s2
          (omega (arith, length-postponed_by s.events xs ys)) q2 in
      let (q3, log3, alike3) = after3 in
      let events2 = alike2.same_events ∙ alike1.same_events in
      let buckets = alike3.same_buckets ∙ alike2.same_buckets ∙ alike1.same_buckets in
      let (timed, run4, n4, link4) = after_idle-none fuel msec s3 (rw buckets n) in
      let q3' = subst (λ ev. Queued s3 (again ev ws (put_onto zs [])) []) events2 q3 in
      (
        record s3 { timed = timed },
        ap (after_collect handler (suc fuel) msec zs) run1
            ∙ ap (after_idle handler (suc fuel) msec) run3
            ∙ run4,
        record {
          queued = record {
            collects = rw link4 q3'.collects;
            postpones = q3'.postpones;
            once = q3'.once;
          };
          in_order =
              log3
              ∙ ap (λ l. l ++ ws) (log2 ∙ log1)
              ∙ append_assoc s.processed (prompt s.events xs) ws;
          unchanged = alike3.same_events ∙ events2;
          none_timed = n4;
        },
      )
