-- ===== src/Lifecycle.antt =====
-- A request from the first bytes of its connection on (http_request.c, recv.c).
pub mod Session
pub mod Handlers
pub mod Closing
pub mod Reading
pub mod OneParse
pub mod Waiting
