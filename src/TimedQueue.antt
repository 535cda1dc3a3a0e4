-- ===== src/TimedQueue.antt =====
-- The queue of timed events (queue.h, queue.c).
pub mod Buckets
pub mod Queue
pub mod Filing
pub mod Cycles
