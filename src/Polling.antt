-- ===== src/Polling.antt =====
-- eventpoll.c: the events of a thread and what epoll watches for them.
pub mod Interest
pub mod Watched
pub mod Modified
