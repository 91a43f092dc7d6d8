-- ===== src/Examples.antt =====
-- Concrete runs: a small device, and each theorem with hypotheses or arguments at an input of its own.
pub mod Device
pub mod Policy
pub mod Permit
pub mod Relay
pub mod Daemon
pub mod Setup
pub mod Life
pub mod Keys
pub mod Escr
pub mod Single
