-- ===== src/Logger.antt =====
-- src/utils/logger.hpp and logger.cpp: what is logged, how a line is built, streams and formats.
pub mod Defs
pub mod Levels
pub mod Stream
mod Tests
