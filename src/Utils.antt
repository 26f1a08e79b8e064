-- ===== src/Utils.antt =====
-- krypton/utils: statuses, times, texts.
pub mod Status
pub mod TimeUtil
pub mod ProtoComparison
pub mod IpRange
pub mod Looper
pub mod Json
