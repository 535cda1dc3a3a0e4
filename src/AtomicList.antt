-- ===== src/AtomicList.antt =====
-- atomiclist.h, atomiclist.c: the list that threads share without a lock; and, of thread.c, how a thread
-- takes its events from it.
pub mod Word
pub mod Alone
pub mod System
pub mod Chains
pub mod Invariant
pub mod Producing
pub mod Consuming
pub mod Fifo
pub mod Progress
pub mod Draining
