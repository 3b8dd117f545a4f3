-- ===== src/App.antt =====
-- src/frontend/imgui_app.cpp without its drawing: live mode, the file that it watches, and loading.
pub mod Defs
pub mod Limit
pub mod Labels
pub mod Watch
pub mod Replaced
pub mod Steps
pub mod Load
pub mod Screen
pub mod Menu
pub mod Timeline
pub mod Panels
pub mod Nesting
pub mod Frames
pub mod Readable
pub mod Closing
pub mod MenuClosing
pub mod Safety
pub mod Selection
mod Tests
mod ScreenTests
