-- ===== src/Tests/Processor.antt =====
-- The round robin of threads at a concrete count.
use ostrichserver.Base.{◌-◌, ◌^◌, ◌≡◌, refl}
use ostrichserver.Base.Int.{negsuc}
use ostrichserver.Processor.{event_assign_thread, after_calls, assigned, at_count}

-- Behind 2^31 events the counter is negative, and so is the index.
assigned_negative : assigned (at_count 3 (2 ^ 31 - 1)) 1 ≡ negsuc 1
unfolding event_assign_thread after_calls
assigned_negative = refl
