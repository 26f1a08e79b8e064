-- ===== src/Provision.antt =====
-- Provisioning a session: krypton/provision.cc, auth.cc and egress_manager.cc, with the messages they
-- exchange with the servers.
pub mod Messages
pub mod Responses
pub mod Control
pub mod Egress
pub mod Auth
pub mod EgressRequest
pub mod EgressResponse
pub mod Requests
pub mod Crypto
