-- ===== src/Tty.antt =====
-- The serial-port routines of slap/port.c.
pub mod Baud
pub mod Open
pub mod Lock
pub mod Claim
