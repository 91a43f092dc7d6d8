-- ===== src/Permit.antt =====
-- Which hosts and ports a session request may reach: noports_daemon.cpp, the permitOpen rules.
pub mod Port
pub mod Rules
pub mod Denial
