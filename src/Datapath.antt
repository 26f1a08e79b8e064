-- ===== src/Datapath.antt =====
-- krypton/datapath/android_ipsec: what the Android datapath keeps beside its sockets.
pub mod MtuTracker
pub mod HealthCheck
pub mod Ipsec
