-- ===== src/Rpc/Messages.antt =====
-- api/proto/gen/gophkeeper/v1: the messages of the vault and secret services, and a
-- recovery code. An enum is an `int32`, as
-- its bit pattern. A list of messages stands for the response that has it as its only field, and so does
-- the text or number of a response with one field.
use yandex_go_final_diploma.Prelude.{ℕ, ◌+◌, ◌-◌, ◌%◌, ◌^◌, String, ltb, if◌then◌else◌}
use yandex_go_final_diploma.Server.Domain.{Bytes, SecretType}

pub record CreateSecretRequest : Type 0 where
  pub secret_id : String
  pub vault_id : String
  pub type : ℕ
  pub enc_row : Bytes
  pub enc_index : Bytes
  pub enc_payload : Bytes

pub record UpdateSecretRequest : Type 0 where
  pub secret_id : String
  pub base_version : ℕ
  pub enc_row : Bytes
  pub enc_index : Bytes
  pub enc_payload : Bytes

pub record DeleteSecretRequest : Type 0 where
  pub secret_id : String
  pub base_version : ℕ

pub record SecretConflict : Type 0 where
  pub secret_id : String
  pub type : ℕ
  pub version : ℕ
  pub enc_row : Bytes
  pub enc_index : Bytes
  pub enc_payload : Bytes

pub record SecretRow : Type 0 where
  pub secret_id : String
  pub type : ℕ
  pub version : ℕ
  pub enc_row : Bytes

pub record SecretIndex : Type 0 where
  pub secret_id : String
  pub version : ℕ
  pub enc_index : Bytes

pub record GetPayloadResponse : Type 0 where
  pub secret_id : String
  pub type : ℕ
  pub version : ℕ
  pub enc_payload : Bytes

pub record CreateVaultRequest : Type 0 where
  pub wrapped_vault_key : Bytes
  pub enc_name : Bytes

pub record Vault : Type 0 where
  pub vault_id : String
  pub wrapped_vault_key : Bytes
  pub enc_name : Bytes
  pub version : ℕ

pub record VaultVersion : Type 0 where
  pub vault_id : String
  pub version : ℕ

pub record RecoveryCodeEntry : Type 0 where
  pub code_id : String
  pub enc_master_key : Bytes

-- `pb.SecretType(t)` of an `int16`, whose sign is extended.
unfoldable pub to_int32 : SecretType → ℕ
to_int32 t = if ltb t (2 ^ 15) then t else t + (2 ^ 32 - 2 ^ 16)

-- `domain.SecretType(t)` of an `int32`, which is cut off.
unfoldable pub to_int16 : ℕ → SecretType
to_int16 t = t % 2 ^ 16

pub record RegisterRequest : Type 0 where
  pub login : String
  pub login_credential : Bytes

pub record RegisterResponse : Type 0 where
  pub access_token : String
  pub refresh_token : String
  pub user_id : String

pub record SetupEncryptionRequest : Type 0 where
  pub enc_kdf_salt : Bytes
  pub enc_kdf_params : Bytes
  pub enc_master_key : Bytes

pub record LoginRequest : Type 0 where
  pub login : String
  pub login_credential : Bytes

-- A `RefreshTokenResponse` has the same fields.
pub record LoginResponse : Type 0 where
  pub access_token : String
  pub refresh_token : String
  pub enc_kdf_salt : Bytes
  pub enc_kdf_params : Bytes
  pub user_id : String
  pub enc_master_key : Bytes
