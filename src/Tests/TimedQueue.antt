-- ===== src/Tests/TimedQueue.antt =====
-- Timed events: runs, and the theorems at concrete inputs.
use Prim.Native.Nat.{min}
use ostrichserver.Base.{ℕ, ◌≤◌, none, ◌≡◌, refl}
use ostrichserver.TimedQueue.Buckets.{bucket_of, lower_bucket}
use ostrichserver.TimedQueue.Queue.{
  TimedQueue, priority_queue_init, Checked, checked, running, null_bucket,
  priority_queue_process_ready, event_priority_enqueue, priority_queue_check,
}
use ostrichserver.TimedQueue.Filing.{IsBucketOf, buckets_agree}

-- Unfolded to run the functions.
timed_run : Unit {0}
unfolding bucket_of lower_bucket event_priority_enqueue priority_queue_check
    priority_queue_process_ready
timed_run = tt

buckets :
    (bucket_of 105 100 ≡ 0)
    × (bucket_of 106 100 ≡ 1)
    × (bucket_of 741 100 ≡ 8)
    × (lower_bucket 130 100 9 ≡ 3)
unfolding timed_run
buckets = (refl, refl, refl, refl)

buckets_agree_example :
    IsBucketOf 130 100 (bucket_of 130 100)
    × ((i : ℕ) → i ≤ 9 → lower_bucket 130 100 i ≡ min i (bucket_of 130 100))
buckets_agree_example = buckets_agree 130 100

abbrev unlinked : TimedQueue
unlinked = priority_queue_init (λ e. none)

-- all events are due at 100
abbrev due : ℕ → ℕ
due e = 100

-- what a check comes to: 0 for an end, 1 for a write through NULL, 2 for a loop
abbrev verdict : Checked → ℕ
verdict (checked q) = 0
verdict null_bucket = 1
verdict running = 2

-- two events that wander to a lower bucket: the second is written through the bucket that is NULL now
checks_null :
    verdict (
      priority_queue_check due 1000 90
        (event_priority_enqueue due 8 40 (event_priority_enqueue due 7 40 unlinked)))
    ≡ 1
unfolding timed_run
checks_null = refl
