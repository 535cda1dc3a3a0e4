-- ===== src/Dict.antt =====
-- dict.h, dict.c: a chained hash table behind a read-write lock.
pub mod Interface
pub mod Table
pub mod Ops
pub mod Hashes
pub mod Rehash
pub mod Release
pub mod Slots
pub mod Lookup
pub mod Growth
pub mod Adding
pub mod Moving
pub mod Locking
pub mod Replacing
pub mod Rounds
