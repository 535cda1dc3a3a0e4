-- ===== src/HttpRequest.antt =====
-- http_request.c: what is made of a parsed request line, and the life of a request.
pub mod Strings
pub mod Slices
pub mod ReadBack
pub mod Host
pub mod HostSpec
