-- ===== src/TimedQueue/Queue.antt =====
-- The timed events of a thread (queue.h, queue.c, event.h). An event is its address; `link` is the field
-- `ln.next` of all events. Event handlers are taken to leave the links and the queue as they are.
use ostrichserver.Base.{
  ℕ, zero, suc, ◌+◌, ◌-◌, ◌/◌, ◌%◌, ◌^◌, List, [], ◌∷◌, ◌++◌, Option, none, some, bit_and, bit_xor,
  ◌==◌, if◌then◌else◌, get_or, set, replicate,
}
use ostrichserver.TimedQueue.Buckets.{idx_time, bucket_of, lower_bucket}

abbrev pub n_pq_list : ℕ
n_pq_list = 10

-- `priority_queue`, with the links of the events; the two `int` fields as their 32 bits
pub record TimedQueue : Type 0 where
  pub last_check_index : ℕ
  pub last_check_time : ℕ
  pub buckets : List (Option ℕ)
  pub link : ℕ → Option ℕ

-- `priority_queue_init`
abbrev pub priority_queue_init : (ℕ → Option ℕ) → TimedQueue
priority_queue_init link = record {
  last_check_index = 0;
  last_check_time = 0;
  buckets = replicate n_pq_list none;
  link = link;
}

-- `e->ln.next = v`
abbrev pub set_link : (ℕ → Option ℕ) → ℕ → Option ℕ → ℕ → Option ℕ
set_link link e v f = if f == e then v else link f

abbrev pub head_of : TimedQueue → ℕ → Option ℕ
head_of q i = get_or q.buckets i none

-- What a pass over a bucket comes to: it ends, it writes through a bucket that is NULL, or it is still
-- running when the fuel is used up.
pub data Checked : Type 0 where
  checked : TimedQueue → Checked
  null_bucket : Checked
  running : Checked

-- What `priority_queue_process_ready` comes to, with the events that it has had processed: it returns, it
-- has NULL processed, or it is still running when the fuel is used up.
pub data Ready : Type 0 where
  returns : List ℕ → Ready
  null_event : List ℕ → Ready
  runs_on : Ready

-- `while (e) { e = getlnknext(e); t->process_event(e); }`
unfoldable pub ready_loop : ℕ → (ℕ → Option ℕ) → Option ℕ → List ℕ → Ready
ready_loop zero link e processed = runs_on
ready_loop (suc fuel) link none processed = returns processed
ready_loop (suc fuel) link (some e) processed = elim (link e) [
  | none ↦ null_event processed
  | some next ↦ ready_loop fuel link (some next) (processed ++ next ∷ [])
]

-- `priority_queue_process_ready`
unfoldable pub priority_queue_process_ready : ℕ → TimedQueue → Ready
unfolding ready_loop
priority_queue_process_ready fuel q = ready_loop fuel q.link (head_of q 0) []

-- `while (todo_buckets) { k++; todo_buckets >>= 1; }`, with the rounds that may be left
unfoldable pub count_bits : ℕ → ℕ → ℕ
count_bits zero todo = 0
count_bits (suc rounds) todo =
    let rest = count_bits rounds (todo / 2) in if todo == 0 then 0 else rest + 1

-- the buckets that `priority_queue_check` goes over, for the indices of this and of the last check
abbrev pub todo_of : ℕ → ℕ → ℕ
todo_of index last = bit_and (bit_xor index last) (2 ^ (n_pq_list - 1) - 1)

-- the end of `event_priority_enqueue`, with the head of bucket `i`
abbrev pub enqueue_in : TimedQueue → ℕ → ℕ → Option ℕ → TimedQueue
enqueue_in q e i (some head) = record q {
  link = set_link (set_link q.link e (some head)) head (some e);
}
enqueue_in q e i none = record q { buckets = set q.buckets i (some e) }

module _ (timeout : ℕ → ℕ) where
  -- `event_priority_enqueue`
  unfoldable pub event_priority_enqueue : ℕ → ℕ → TimedQueue → TimedQueue
  event_priority_enqueue e now q =
      let i = bucket_of (timeout e) now in enqueue_in q e i (head_of q i)

  -- the loop of `priority_queue_check` over the events that were in bucket `i`
  unfoldable pub refile : ℕ → ℕ → ℕ → TimedQueue → Option ℕ → Checked
  refile zero i now q e = running
  refile (suc fuel) i now q none = checked q
  refile (suc fuel) i now q (some e) =
      let j = lower_bucket (timeout e) now i in
      elim (head_of q j) [
        | none ↦ refile fuel i now (record q { buckets = set q.buckets j (some e) }) (q.link e)
        | some head ↦ elim (head_of q i) [
          | none ↦ null_bucket
          | some first ↦
              let link' = set_link (set_link q.link e (some head)) first (some e) in
              refile fuel i now (record q { link = link' }) (link' e)
        ]
      ]

  -- `for (i = 1; i <= k; i++)`, with the rounds that are left
  unfoldable pub check_buckets : ℕ → ℕ → ℕ → ℕ → TimedQueue → Checked
  unfolding refile
  check_buckets fuel zero i now q = checked q
  check_buckets fuel (suc rounds) i now q =
      elim (refile fuel i now (record q { buckets = set q.buckets i none }) (head_of q i)) [
        | checked q' ↦ check_buckets fuel rounds (i + 1) now q'
        | null_bucket ↦ null_bucket
        | running ↦ running
      ]

  -- `priority_queue_check`; `todo_buckets` has at most N_PQ_LIST - 1 bits
  unfoldable pub priority_queue_check : ℕ → ℕ → TimedQueue → Checked
  unfolding check_buckets count_bits
  priority_queue_check fuel now q =
      let index = now / idx_time 0 % 2 ^ 32 in
      check_buckets fuel (count_bits n_pq_list (todo_of index q.last_check_index)) 1 now
        (record q { last_check_time = now % 2 ^ 32; last_check_index = index })
