-- ===== src/Tests.antt =====
-- Concrete runs of the model, and the theorems at concrete inputs.
pub mod Samples
mod Render
mod Slplus
mod Slpro
mod Tty
mod Makefont
mod Program
mod Session
