-- ===== src/Server/Examples.antt =====
-- The server's model on a small database.
pub mod Json
pub mod Ids
pub mod Data
mod Secrets
mod Tx
mod Vaults
mod Auth
pub mod Accounts
