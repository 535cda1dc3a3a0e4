-- ===== src/Startup.antt =====
-- main.c: the options of the command line and the title of the process.
pub mod Options
pub mod Flags
pub mod Title
pub mod Writing
pub mod Layout
pub mod Process
