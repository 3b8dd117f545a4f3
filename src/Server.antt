-- ===== src/Server.antt =====
-- The live stream of src/server/live_data_collector.hpp.
pub mod Stream
pub mod Order
pub mod Clients
pub mod Counting
pub mod EventText
mod Tests
mod ClientTests
