-- ===== src/EventLoop.antt =====
-- thread.c: the event loop of a thread.
pub mod Thread
pub mod Queued
pub mod Order
pub mod Loops
pub mod Turns
pub mod Polling
pub mod Redo
pub mod Starting
