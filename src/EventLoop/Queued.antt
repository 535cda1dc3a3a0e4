-- ===== src/EventLoop/Queued.antt =====
-- The two local queues of a thread in memory: each event in one place of one of them.
use ostrichserver.Base.{
  ℕ, ◌+◌, ◌≤◌, List, [], ◌∷◌, Option, none, some, ◌≡◌, refl, arith, ◌==◌, if◌then◌else◌,
}
use ostrichserver.TimedQueue.Queue.{set_link}
use ostrichserver.EventLoop.Thread.{Thread, write_link, collectqueue_enqueue, postponed_enqueue}

-- How often an event stands in a list.
abbrev pub occurs : ℕ → List ℕ → ℕ
occurs e [] = 0
occurs e (x ∷ xs) = (if x == e then 1 else 0) + occurs e xs

-- From the pointer `h` the links lead through the events `xs` to NULL.
abbrev pub Linked : (ℕ → Option ℕ) → Option ℕ → List ℕ → Type 0
Linked link h [] = h ≡ none
Linked link h (x ∷ xs) = (h ≡ some x) × Linked link (link x) xs

pub Linked-set_link :
    (link : ℕ → Option ℕ) (h v : Option ℕ) (e : ℕ) (xs : List ℕ)
    → occurs e xs ≡ 0
    → Linked link h xs
    → Linked (set_link link e v) h xs
Linked-set_link link h v e [] out c = c
Linked-set_link link h v e (x ∷ xs) out (first, c) =
    let other : set_link link e v x ≡ link x = ground arith in
    (first, rw other (Linked-set_link link (link x) v e xs (ground arith) c))

pub set_link_self : (link : ℕ → Option ℕ) (e : ℕ) (v : Option ℕ) → set_link link e v e ≡ v
set_link_self link e v = ground arith

-- `collectqueue` holds `xs` and `postponedqueue` holds `ys`, the next event to be dequeued first, and no
-- event is there twice.
pub record Queued (s : Thread) (xs ys : List ℕ) : Type 0 where
  pub collects : Linked s.timed.link s.collect xs
  pub postpones : Linked s.timed.link s.postponed ys
  pub once : (e : ℕ) → occurs e xs + occurs e ys ≤ 1

-- An event that is in neither queue.
abbrev pub Outside : ℕ → List ℕ → List ℕ → Type 0
Outside e xs ys = occurs e xs + occurs e ys ≡ 0

-- the thread behind `collectqueue_dequeue`, and behind `postponed_dequeue`
abbrev pub collect_taken : ℕ → Thread → Thread
collect_taken e s = record (write_link e none s) { collect = s.timed.link e }

abbrev pub postponed_taken : ℕ → Thread → Thread
postponed_taken e s = record (write_link e none s) { postponed = s.timed.link e }

pub write_link-Queued :
    (s : Thread) (e : ℕ) (v : Option ℕ) (xs ys : List ℕ)
    → Outside e xs ys
    → Queued s xs ys
    → Queued (write_link e v s) xs ys
write_link-Queued s e v xs ys out q = record {
  collects = Linked-set_link s.timed.link s.collect v e xs (omega arith) q.collects;
  postpones = Linked-set_link s.timed.link s.postponed v e ys (omega arith) q.postpones;
  once = q.once;
}

head-once : (e : ℕ) (xs : List ℕ) → occurs e (e ∷ xs) ≡ 1 + occurs e xs
head-once e xs = ground arith

tail-le : (e x : ℕ) (xs : List ℕ) → occurs e xs ≤ occurs e (x ∷ xs)
tail-le e x xs = ground arith

cons-once :
    (e x : ℕ) (xs ys : List ℕ)
    → Outside x xs ys
    → occurs e xs + occurs e ys ≤ 1
    → occurs e (x ∷ xs) + occurs e ys ≤ 1
cons-once e x xs ys out h = ground arith

pub collect_taken-Queued :
    (s : Thread) (x : ℕ) (xs ys : List ℕ)
    → Queued s (x ∷ xs) ys
    → Queued (collect_taken x s) xs ys × Outside x xs ys
collect_taken-Queued s x xs ys q =
    let out : Outside x xs ys = omega (arith, head-once x xs, q.once x) in
    (
      record {
        collects =
            Linked-set_link s.timed.link (s.timed.link x) none x xs (omega arith) q.collects.1;
        postpones = Linked-set_link s.timed.link s.postponed none x ys (omega arith) q.postpones;
        once = λ e. omega (arith, tail-le e x xs, q.once e);
      },
      out,
    )

pub postponed_taken-Queued :
    (s : Thread) (y : ℕ) (xs ys : List ℕ)
    → Queued s xs (y ∷ ys)
    → Queued (postponed_taken y s) xs ys × Outside y xs ys
postponed_taken-Queued s y xs ys q =
    let out : Outside y xs ys = omega (arith, head-once y ys, q.once y) in
    (
      record {
        collects = Linked-set_link s.timed.link s.collect none y xs (omega arith) q.collects;
        postpones =
            Linked-set_link s.timed.link (s.timed.link y) none y ys (omega arith) q.postpones.1;
        once = λ e. omega (arith, tail-le e y ys, q.once e);
      },
      out,
    )

pub collectqueue_enqueue-Queued :
    (s : Thread) (x : ℕ) (xs ys : List ℕ)
    → Outside x xs ys
    → Queued s xs ys
    → Queued (collectqueue_enqueue x s) (x ∷ xs) ys
collectqueue_enqueue-Queued s x xs ys out q =
    let framed = write_link-Queued s x s.collect xs ys out q in
    record {
      collects = (refl, rw (set_link_self s.timed.link x s.collect) framed.collects);
      postpones = framed.postpones;
      once = λ e. cons-once e x xs ys out (q.once e);
    }

pub postponed_enqueue-Queued :
    (s : Thread) (y : ℕ) (xs ys : List ℕ)
    → Outside y xs ys
    → Queued s xs ys
    → Queued (postponed_enqueue y s) xs (y ∷ ys)
postponed_enqueue-Queued s y xs ys out q =
    let framed = write_link-Queued s y s.postponed xs ys out q in
    record {
      collects = framed.collects;
      postpones = (refl, rw (set_link_self s.timed.link y s.postponed) framed.postpones);
      once = λ e. omega (arith, cons-once e y ys xs (omega arith) (omega (arith, q.once e)));
    }
