-- ===== src/Dictionary.antt =====
-- arrays.h: the dictionary from strings to pointers.
pub mod Table
pub mod Counting
pub mod Values
pub mod Inserting
pub mod Removing
pub mod Keys
