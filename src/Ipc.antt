-- ===== src/Ipc.antt =====
-- The shared-memory ring buffer between processes (ipc/).
pub mod Defs
pub mod Windows
pub mod Window
pub mod Queue
pub mod Steps
pub mod Invariant
pub mod Releases
pub mod Interleave
pub mod Drain
mod Tests
mod WindowsTests
