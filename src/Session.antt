-- ===== src/Session.antt =====
-- krypton/session.h and session.cc: one session, from its provisioning to its datapath.
pub mod Model
pub mod Parts
pub mod Tunnels
pub mod Control
pub mod Handlers
pub mod TunFdData
pub mod Mtu
