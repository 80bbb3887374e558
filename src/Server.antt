-- ===== src/Server.antt =====
-- The server: internal/server.
pub mod Domain
pub mod Errors
pub mod External
pub mod Store
pub mod Tx
pub mod Repo
pub mod Secrets
pub mod Vaults
pub mod Auth
pub mod Accounts
pub mod Examples
