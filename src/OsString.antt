-- ===== src/OsString.antt =====
-- osstring.h, osstring.c: functions on bytes.
pub mod Case
pub mod Search
pub mod Finding
pub mod Folding
pub mod Number
