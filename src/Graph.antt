-- ===== src/Graph.antt =====
-- The graph view of src/frontend/imgui_widgets.cpp, without its drawing.
pub mod Defs
pub mod Depths
pub mod Lanes
mod Tests
