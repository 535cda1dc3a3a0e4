-- ===== src/TimedQueue/Buckets.antt =====
-- The buckets of the timed events: which one an event belongs to (queue.h, queue.c). Times are numbers of
-- milliseconds far below the limits of `int64_t`, so that `e->timeout - now <= IDX_TIME(k)` is a
-- comparison of sums.
use ostrichserver.Base.{ℕ, zero, suc, ◌+◌, ◌*◌, ◌^◌, Bool, leb, if◌then◌else◌}

-- `IDX_TIME(t)`
abbrev pub idx_time : ℕ → ℕ
idx_time t = 5 * 2 ^ t

-- `t <= IDX_TIME(k)`, where `t` is `timeout - now`
abbrev pub within : ℕ → ℕ → ℕ → Bool
within timeout now k = leb timeout (now + idx_time k)

-- the comparisons of `event_priority_enqueue`
unfoldable pub bucket_of : ℕ → ℕ → ℕ
bucket_of timeout now =
    if within timeout now 3
    then (if within timeout now 1
        then (if within timeout now 0 then 0 else 1)
        else (if within timeout now 2 then 2 else 3))
    else (if within timeout now 7
        then (if within timeout now 5
            then (if within timeout now 4 then 4 else 5)
            else (if within timeout now 6 then 6 else 7))
        else (if within timeout now 8 then 8 else 9))

-- `for (j = i; j > 0 && tt <= IDX_TIME(j - 1);) j--;`
unfoldable pub lower_bucket : ℕ → ℕ → ℕ → ℕ
lower_bucket timeout now zero = 0
lower_bucket timeout now (suc j) =
    let rest = lower_bucket timeout now j in if within timeout now j then rest else suc j
