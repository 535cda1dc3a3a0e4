-- ===== src/HashTable.antt =====
-- The hash table with open addressing (hashtable.c).
pub mod Hash
pub mod Table
pub mod Walk
pub mod Adding
pub mod Finding
pub mod Staying
pub mod Outside
