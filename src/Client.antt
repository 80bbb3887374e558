-- ===== src/Client.antt =====
-- The client: internal/client.
pub mod Errors
pub mod Local
pub mod Device
pub mod Sync
pub mod Replay
pub mod Progress
pub mod Secrets
pub mod Examples
