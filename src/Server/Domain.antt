-- ===== src/Server/Domain.antt =====
-- internal/server/domain: the entities that the use cases and the repositories exchange.
-- An identifier is the text of a UUID. A `[]byte` is the list of its bytes, and `nil` is the empty
-- one: the code tests only the length. An `int64` is its bit pattern, a number below 2 ^ 64: the
-- code compares versions for equality, and only the database counts them up.
use yandex_go_final_diploma.Prelude.{ℕ, String, Bool, Option, List}

abbrev pub Bytes : Type 0
Bytes = List ℕ

-- `SecretType int16`: the column holds any 16-bit value, five of them are named.
abbrev pub SecretType : Type 0
SecretType = ℕ

abbrev pub type_login_password : SecretType
type_login_password = 1

abbrev pub type_binary : SecretType
type_binary = 3

pub record Secret : Type 0 where
  pub id : String
  pub vault_id : String
  pub type : SecretType
  pub enc_row : Bytes
  pub enc_index : Bytes
  pub enc_payload : Bytes
  pub blob_ref : Option String
  pub blob_size : Option ℕ
  pub version : ℕ
  pub deleted : Bool

pub record Vault : Type 0 where
  pub id : String
  pub user_id : String
  pub wrapped_vault_key : Bytes
  pub enc_name : Bytes
  pub version : ℕ
  pub deleted : Bool

pub record User : Type 0 where
  pub id : String
  pub login : String
  pub auth_hash : String
  pub enc_kdf_salt : Bytes
  pub enc_kdf_params : Bytes
  pub enc_master_key : Bytes
