-- ===== src/Relay.antt =====
-- noports_relay.cpp: the relay of a session, which carries its connections between the rendezvous
-- server (rvd, SRVD) and the local service.
pub mod Forward
pub mod Sub
pub mod Connect
pub mod Session
pub mod Start
pub mod Escr
pub mod Single
