-- ===== src/Metadata.antt =====
-- common/cpp/public_metadata: what a token says about its owner in public.
pub mod Serialize
pub mod Fingerprint
