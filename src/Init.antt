-- ===== src/Init.antt =====
-- The constructor of the shared library (src/instrumentation/ggml_viz_init.cpp).
pub mod Defs
pub mod Trace
mod Tests
