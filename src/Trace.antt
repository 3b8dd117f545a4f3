-- ===== src/Trace.antt =====
-- src/utils/trace_reader.cpp and the trace format that src/instrumentation/ggml_hook.cpp writes.
pub mod Bytes
pub mod Format
pub mod Reader
pub mod RoundTrip
pub mod Truncated
pub mod Memory
pub mod Queries
pub mod Pairing
pub mod Counts
pub mod Total
mod Tests
