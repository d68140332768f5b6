-- ===== src/Slplus.antt =====
-- The driver for the SLP, SLP-Plus and SLP-EZ30 printers, slap/slplus.c.
pub mod Map
pub mod Stream
pub mod Line
pub mod Status
pub mod Wait
pub mod Label
pub mod Setup
pub mod Channel
pub mod Device
