-- ===== src/Show.antt =====
-- The show engine: cues, scenes and their blending (show_control.cpp).
pub mod Intent
pub mod Control
pub mod Patch
pub mod Render
mod Tests
