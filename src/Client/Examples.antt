-- ===== src/Client/Examples.antt =====
-- The client's scenarios at concrete inputs.
pub mod Data
pub mod Local
pub mod Sync
pub mod Replay
pub mod Secrets
