-- ===== src/Daemon.antt =====
-- noports_daemon: the daemon's state, its notifications and its sessions.
pub mod Host
pub mod State
pub mod Notify
pub mod Envelope
pub mod Pending
pub mod Requests
pub mod Response
pub mod ClientKeys
pub mod Slots
pub mod Enrollment
pub mod Setup
pub mod Life
