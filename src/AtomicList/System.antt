-- ===== src/AtomicList/System.antt =====
-- Threads that put events on the external queue of one thread while that thread takes them, interleaved
-- in any order. One step is one access to shared memory; what a thread does to memory that no other
-- thread can reach is part of a step. `atomic_list_pop` is called nowhere and stands in Alone.
use ostrichserver.Base.{
  ℕ, ◌+◌, ◌≡◌, ◌≢◌, Bool, true, false, List, [], ◌∷◌, ◌++◌, ◌==◌, if◌then◌else◌,
}
use ostrichserver.AtomicList.Word.{al_pointer, al_version, set_pointer_version, IsAddress}

abbrev pub update : {A : Type 0} → (ℕ → A) → ℕ → A → ℕ → A
update f i a j = if i == j then a else f j

-- Where a producer stands in `atomic_list_push(al, e)`, called by `thread_event_enqueue`.
pub data Pc : Type 0 where
  idle : Pc
  -- at `_LD64`
  loading : ℕ → Pc
  -- `head` is loaded, `*addroffset = h` comes next
  linking : ℕ → ℕ → Pc
  -- at `atomic_cas`, with the head that was loaded
  swapping : ℕ → ℕ → Pc

-- Where the owner of the queue stands in its loop.
pub data Taker : Type 0 where
  -- at `collectqueue.dequeue()` or behind it
  working : Taker
  -- in `atomic_list_popall`, at `temp = al->head`
  fetching : Taker
  -- at `atomic_cas`, with the head that was loaded
  emptying : ℕ → Taker
  -- in the loop of `thread_event_dequeue`, at the event `e`, or at its end for NULL
  collecting : ℕ → Taker

-- `head` is `al->head.data`, `next e` is `e->ln.next`, and `link` is `collectqueue.link` of the owner. The
-- last two note the order in which events got on the queue and in which the owner came to process
-- them; the steps write them and never read them.
pub record Shared : Type 0 where
  pub head : ℕ
  pub next : ℕ → ℕ
  pub link : ℕ
  pub pc : ℕ → Pc
  pub taker : Taker
  pub started : ℕ → Bool
  pub pushed : List ℕ
  pub processed : List ℕ

-- as `thread_externalq_init` and `collectqueue_init` leave it
abbrev pub initial : Shared
initial = record {
  head = set_pointer_version 0 0;
  next = λ e. 0;
  link = 0;
  pc = λ i. idle;
  taker = working;
  started = λ e. false;
  pushed = [];
  processed = [];
}

-- The step of the producer `i`. An event is put on a queue once: `event_schedule` allocates it.
pub data Produce (i : ℕ) (s : Shared) : Shared → Type 0 where
  start :
      (e : ℕ)
      → s.pc i ≡ idle
      → IsAddress e
      → s.started e ≡ false
      → Produce i s (record s { pc = update s.pc i (loading e); started = update s.started e true })
  load :
      (e : ℕ)
      → s.pc i ≡ loading e
      → Produce i s (record s { pc = update s.pc i (linking e s.head) })
  set_next :
      (e w : ℕ)
      → s.pc i ≡ linking e w
      → Produce i s
          (record s { next = update s.next e (al_pointer w); pc = update s.pc i (swapping e w) })
  swap :
      (e w : ℕ)
      → s.pc i ≡ swapping e w
      → s.head ≡ w
      → Produce i s (record s {
        head = set_pointer_version e (al_version w);
        pc = update s.pc i idle;
        pushed = s.pushed ++ e ∷ [];
      })
  swap_fails :
      (e w : ℕ)
      → s.pc i ≡ swapping e w
      → s.head ≢ w
      → Produce i s (record s { pc = update s.pc i (loading e) })

-- The step of the owner. It takes the queue when its own queue is empty, as `thread_main_event_loop` does.
pub data Consume (s : Shared) : Shared → Type 0 where
  -- `collectqueue_dequeue`, whose event is then processed
  dequeue :
      s.taker ≡ working
      → s.link ≢ 0
      → Consume s (record s {
        link = s.next s.link;
        next = update s.next s.link 0;
        processed = s.processed ++ s.link ∷ [];
      })
  -- `atomic_list_empty` is false
  nonempty :
      s.taker ≡ working
      → s.link ≡ 0
      → al_pointer s.head ≢ 0
      → Consume s (record s { taker = fetching })
  fetch :
      s.taker ≡ fetching → al_pointer s.head ≢ 0 → Consume s (record s { taker = emptying s.head })
  fetch_null :
      s.taker ≡ fetching → al_pointer s.head ≡ 0 → Consume s (record s { taker = collecting 0 })
  empty :
      (w : ℕ)
      → s.taker ≡ emptying w
      → s.head ≡ w
      → Consume s (record s {
        head = set_pointer_version 0 (al_version w + 1);
        taker = collecting (al_pointer w);
      })
  empty_fails :
      (w : ℕ) → s.taker ≡ emptying w → s.head ≢ w → Consume s (record s { taker = fetching })
  -- `enext = getlnknext(e); e->ln.next = NULL; collectqueue.enqueue(e); e = enext`
  collect :
      (e : ℕ)
      → s.taker ≡ collecting e
      → e ≢ 0
      → Consume s
          (record s { next = update s.next e s.link; link = e; taker = collecting (s.next e) })
  collect_end : s.taker ≡ collecting 0 → Consume s (record s { taker = working })

pub data Step (s t : Shared) : Type 0 where
  produce : (i : ℕ) → Produce i s t → Step s t
  consume : Consume s t → Step s t

pub data Reach : Shared → Type 0 where
  begin : Reach initial
  after : {s t : Shared} → Reach s → Step s t → Reach t
