-- ===== src/Examples.antt =====
-- Concrete runs: the theorems of the other modules at inputs where their hypotheses hold.
pub mod Network
pub mod Utils
pub mod Tunnel
pub mod Timer
pub mod Selector
pub mod Reconnector
pub mod Session
pub mod Setup
pub mod Krypton
pub mod Looper
pub mod Metadata
pub mod Provision
pub mod Datapath
