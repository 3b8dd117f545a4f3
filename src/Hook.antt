-- ===== src/Hook.antt =====
-- src/instrumentation/ggml_hook.cpp: the hook that records events into a ring buffer and a trace
-- file.
pub mod Defs
pub mod Ring
pub mod File
pub mod Session
pub mod Queue
pub mod Refine
pub mod Callbacks
pub mod Interpose
pub mod Allocs
pub mod Brackets
pub mod Profile
mod Tests
