-- ===== src/Headers.antt =====
-- http.h, http.c: the table of header lines and its handlers.
pub mod Types
pub mod Browser
pub mod Handlers
pub mod Index
pub mod Laws
pub mod Searching
pub mod Repeated
