-- ===== src/Client/Local.antt =====
-- internal/client/localstore: the tables of the local SQLite database, and one function for each
-- statement. Ids are texts, and the primary key of a table makes them unique; a NULL in a BLOB column
-- is the empty string of bytes. `created_at` of the queue is left out, nothing reads it.
pub mod Secrets
pub mod Vaults
pub mod Outbox
pub mod Tables
pub mod Unique
pub mod Keys
pub mod Caches
use yandex_go_final_diploma.Prelude.{ℕ, String, Bool, List, [], ◌∷◌}
use yandex_go_final_diploma.Exec.{Exec, Result}
use yandex_go_final_diploma.Server.Domain.{Bytes}
use yandex_go_final_diploma.Client.Errors.{ClientErr}

pub record LocalVault : Type 0 where
  pub id : String
  pub wrapped_vault_key : Bytes
  pub enc_name : Bytes
  pub version : ℕ
  pub synced_version : ℕ
  pub deleted : Bool
  pub sync_enabled : Bool

pub record LocalSecret : Type 0 where
  pub id : String
  pub vault_id : String
  pub type : ℕ
  pub enc_row : Bytes
  pub enc_index : Bytes
  pub enc_payload : Bytes
  pub version : ℕ
  pub index_loaded : Bool
  pub payload_loaded : Bool
  pub dirty : Bool
  pub deleted : Bool

-- The text column `op`; a text that the code does not know is `unknown`.
pub data OutboxOp : Type 0 where
  create update delete blob_upload unknown : OutboxOp

pub data OutboxStatus : Type 0 where
  pending conflicted : OutboxStatus

pub record OutboxEntry : Type 0 where
  pub id : ℕ
  pub op : OutboxOp
  pub entity : String
  pub entity_id : String
  pub base_version : ℕ
  pub payload : Bytes
  pub status : OutboxStatus

-- `next_id` is the AUTOINCREMENT counter of the queue.
pub record Local : Type 0 where
  pub vaults : List LocalVault
  pub secrets : List LocalSecret
  pub outbox : List OutboxEntry
  pub next_id : ℕ
  pub kv : List (String × Bytes)

abbrev pub Statement : Type 0 → Type 0
Statement A = Exec Local ClientErr A
