-- ===== src/Crypto/Examples.antt =====
-- The encryption at concrete inputs.
pub mod Padded
pub mod Prefixed
pub mod Runs
