-- ===== src/Slpro.antt =====
-- The driver for the SLP-Pro family of printers, slap/slpro.c.
pub mod Models
pub mod Line
pub mod Status
pub mod Wait
pub mod Map
pub mod Label
pub mod Setup
pub mod Channel
pub mod Device
