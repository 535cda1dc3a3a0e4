-- ===== src/RequestLine.antt =====
-- http_parse.c: the request-line parser, and what is proved of it, one child for each part.
pub mod Types
pub mod Codes
pub mod Method
pub mod Target
pub mod Uri
pub mod Version
pub mod Parse
pub mod Run
pub mod Chunks
pub mod Bounds
pub mod RoundTrip
pub mod Tables
