-- ===== src/Cli.antt =====
-- The command line of src/main.cpp.
pub mod Defs
pub mod Parse
pub mod Start
mod Tests
