-- ===== src/Config.antt =====
-- config.c: the records of the configuration file, in a dictionary.
pub mod Tokens
pub mod Records
pub mod Cutting
pub mod RoundTrip
pub mod Opening
