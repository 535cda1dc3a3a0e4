-- ===== src/Accepting.antt =====
-- acceptor.c, processor.c: connections that are accepted, and the threads that they go to.
pub mod Schedule
pub mod Shares
pub mod Once
