-- ===== src/Config.antt =====
-- src/utils/config.hpp and config.cpp: the configuration, its validation, its merging and its
-- manager.
pub mod Defs
pub mod Merge
pub mod Env
pub mod Manager
pub mod Json
pub mod RoundTrip
pub mod Files
mod JsonTests
pub mod Validity
pub mod Precedence
mod Tests
