-- ===== src/Render.antt =====
-- The text renderer, slap/render.c.
pub mod Glyph
pub mod Overstrike
pub mod Box
pub mod Page
