-- ===== src/SpinLock.antt =====
-- spinlock.c and the macros of atomic.h: the lock on which a thread spins.
pub mod Threads
pub mod Exclusion
pub mod Waiting
