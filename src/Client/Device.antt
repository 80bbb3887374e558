-- ===== src/Client/Device.antt =====
-- What the scenarios of the client stand on: internal/client/contracts (server_client.go and
-- local_storage.go), and a device as they see it.
pub mod Keeps
pub mod Returns
use yandex_go_final_diploma.Prelude.{
  ℕ, ◌+◌, ◌%◌, ◌^◌, String, Bool, true, false, Option, none, some, List, [], ◌∷◌, ◌≡◌, leb,
}
use yandex_go_final_diploma.Exec.{Exec, Result, ok, err, pure, ◌>>=◌}
use yandex_go_final_diploma.Server.Domain.{Bytes}
use yandex_go_final_diploma.Client.Errors.{ClientErr, local_failure, no_tokens}
use yandex_go_final_diploma.Client.Local.{Local, Statement}

pub record VaultItem : Type 0 where
  pub id : String
  pub wrapped_vault_key : Bytes
  pub enc_name : Bytes
  pub version : ℕ

pub record VaultVersion : Type 0 where
  pub id : String
  pub version : ℕ

pub record SecretRowItem : Type 0 where
  pub id : String
  pub type : ℕ
  pub version : ℕ
  pub enc_row : Bytes

pub record SecretIndexItem : Type 0 where
  pub id : String
  pub version : ℕ
  pub enc_index : Bytes

pub record SecretPayloadItem : Type 0 where
  pub id : String
  pub type : ℕ
  pub version : ℕ
  pub enc_payload : Bytes

-- The calls of `ServerClient` that the modelled scenarios make. S is all that is not on the device's
-- database: the server, the network and the files. The first text of each call is the access token.
pub record ServerClient (S : Type 0) : Type 0 where
  pub check_freshness : String → Exec S ClientErr (List VaultVersion)
  pub list_vaults : String → Exec S ClientErr (List VaultItem)
  pub list_secret_rows : String → String → Exec S ClientErr (List SecretRowItem)
  pub list_secret_index : String → String → Exec S ClientErr (List SecretIndexItem)
  pub get_secret_payload : String → String → Exec S ClientErr SecretPayloadItem
  pub create_secret :
      String → String → String → ℕ → Bytes → Bytes → Bytes → Exec S ClientErr (Unit {0})
  pub update_secret : String → String → ℕ → Bytes → Bytes → Bytes → Exec S ClientErr ℕ
  pub delete_secret : String → String → ℕ → Exec S ClientErr (Unit {0})

-- The bodies of the queued operations.
pub record OutboxSecretCreate : Type 0 where
  pub secret_id : String
  pub vault_id : String
  pub type : ℕ
  pub enc_row : Bytes
  pub enc_index : Bytes
  pub enc_payload : Bytes

pub record OutboxSecretUpdate : Type 0 where
  pub secret_id : String
  pub vault_id : String
  pub base_version : ℕ
  pub type : ℕ
  pub enc_row : Bytes
  pub enc_index : Bytes
  pub enc_payload : Bytes

pub record OutboxSecretDelete : Type 0 where
  pub secret_id : String
  pub vault_id : String
  pub base_version : ℕ

pub record OutboxBlobUpload : Type 0 where
  pub secret_id : String
  pub vault_id : String

-- `json.Marshal` and `json.Unmarshal` at one type.
pub record Codec (A : Type 0) : Type 0 where
  pub put : A → Bytes
  pub get : Bytes → Option A

pub record Json : Type 0 where
  pub creates : Codec OutboxSecretCreate
  pub updates : Codec OutboxSecretUpdate
  pub deletes : Codec OutboxSecretDelete
  pub uploads : Codec OutboxBlobUpload

-- One element of `faults` is drawn by each statement on the local database: `true` fails it. Behind
-- the end of the list nothing fails. `token` is the stored access token, none where `Load` fails.
pub record Device (S : Type 0) : Type 0 where
  pub local : Local
  pub faults : List Bool
  pub token : Option String
  pub remote : S

abbrev pub Scenario : Type 0 → Type 0 → Type 0
Scenario S A = Exec (Device S) ClientErr A

module _ {S A : Type 0} where
  abbrev pub perform : Statement A → List Bool → Scenario S A
  perform st faults d = let (r, l) = st d.local in (r, record d { local = l; faults = faults })

  -- A statement on the local database. One that fails has written nothing.
  unfoldable pub run_local : Statement A → Scenario S A
  run_local st d = elim d.faults [
    | [] ↦ perform st [] d
    | fails ∷ rest ↦ elim fails [
      | true ↦ (err local_failure, record d { faults = rest })
      | false ↦ perform st rest d
    ]
  ]

  -- A call that leaves the device.
  unfoldable pub run_remote : Exec S ClientErr A → Scenario S A
  run_remote call d = let (r, s) = call d.remote in (r, record d { remote = s })

-- `accessToken`
unfoldable pub access_token : {S : Type 0} → Scenario S String
access_token d = elim d.token [ none ↦ (err no_tokens, d) | some t ↦ (ok t, d) ]

-- `a >= b` on `int64`, both as bit patterns.
unfoldable pub at_least : ℕ → ℕ → Bool
at_least a b = leb ((b + 2 ^ 63) % 2 ^ 64) ((a + 2 ^ 63) % 2 ^ 64)

-- `v + 1` on `int64`.
unfoldable pub next_version : ℕ → ℕ
next_version v = (v + 1) % 2 ^ 64
