-- ===== src/Rpc/Handlers.antt =====
-- grpcserver/secret_service.go and vault_service.go with the mappers, over the scenarios of the server.
pub mod Recovery
pub mod Accounts
use yandex_go_final_diploma.Prelude.{ℕ, String, none, some, List, map}
use yandex_go_final_diploma.Exec.{Exec, Result, ok, err, raise}
use yandex_go_final_diploma.Server.Errors.{Err}
use yandex_go_final_diploma.Server.External.{External}
use yandex_go_final_diploma.Server.Store.{World, Action}
use yandex_go_final_diploma.Server.Tx.{pool}
use yandex_go_final_diploma.Server.Repo.Vaults.{Version}
use yandex_go_final_diploma.Server.Secrets as Secrets
use yandex_go_final_diploma.Server.Vaults as Vaults
use yandex_go_final_diploma.Rpc.{Code, Status, status, StatusLibrary}
use yandex_go_final_diploma.Rpc.Messages.{
  CreateSecretRequest, UpdateSecretRequest, DeleteSecretRequest, SecretRow, SecretIndex,
  GetPayloadResponse, CreateVaultRequest, Vault, VaultVersion, to_int32, to_int16,
}
use yandex_go_final_diploma.Rpc.Errors.{map_secret_err, map_vault_err}
use yandex_go_final_diploma.Rpc.Auth.{ContextUserId}

-- The mappers of requests.
unfoldable pub create_secret_params : String → CreateSecretRequest → Secrets.CreateParams
unfolding to_int16
create_secret_params user_id req = record {
  user_id = user_id;
  vault_id = req.vault_id;
  secret_id = req.secret_id;
  type = to_int16 req.type;
  enc_row = req.enc_row;
  enc_index = req.enc_index;
  enc_payload = req.enc_payload;
}

unfoldable pub update_secret_params : String → UpdateSecretRequest → Secrets.UpdateParams
update_secret_params user_id req = record {
  user_id = user_id;
  secret_id = req.secret_id;
  base_version = req.base_version;
  enc_row = req.enc_row;
  enc_index = req.enc_index;
  enc_payload = req.enc_payload;
}

unfoldable pub delete_secret_params : String → DeleteSecretRequest → Secrets.DeleteParams
delete_secret_params user_id req = record {
  user_id = user_id;
  secret_id = req.secret_id;
  base_version = req.base_version;
}

unfoldable pub create_vault_params : String → CreateVaultRequest → Vaults.CreateParams
create_vault_params user_id req = record {
  user_id = user_id;
  wrapped_vault_key = req.wrapped_vault_key;
  enc_name = req.enc_name;
}

-- The mappers of responses.
unfoldable pub list_row_response : List Secrets.Row → List SecretRow
unfolding to_int32
list_row_response rows =
    map
      (λ r. record {
        secret_id = r.id;
        type = to_int32 r.type;
        version = r.version;
        enc_row = r.enc_row;
      })
      rows

unfoldable pub list_index_response : List Secrets.IndexItem → List SecretIndex
list_index_response rows =
    map (λ r. record { secret_id = r.id; version = r.version; enc_index = r.enc_index }) rows

unfoldable pub get_payload_response : Secrets.Payload → GetPayloadResponse
unfolding to_int32
get_payload_response p = record {
  secret_id = p.id;
  type = to_int32 p.type;
  version = p.version;
  enc_payload = p.enc_payload;
}

unfoldable pub list_vaults_response : List Vaults.Tier1 → List Vault
list_vaults_response vaults =
    map
      (λ v. record {
        vault_id = v.id;
        wrapped_vault_key = v.wrapped_vault_key;
        enc_name = v.enc_name;
        version = v.version;
      })
      vaults

unfoldable pub check_freshness_response : List Version → List VaultVersion
check_freshness_response versions =
    map (λ v. record { vault_id = v.id; version = v.version }) versions

-- A handler of the server: the user of the context, and the answer or an error status.
abbrev pub Handler : Type 0 → Type 0
Handler A = ContextUserId → Exec World Status A

-- `UserIDFromContext`, and the error where there is none.
abbrev pub with_user : {A : Type 0} → Status → (String → Exec World Status A) → Handler A
with_user missing k none = raise missing
with_user missing k (some user_id) = k user_id

unfoldable pub err_no_user : Status
err_no_user = status Code.unauthenticated

abbrev pub responded : {A B : Type 0} → (Err → Status) → (A → B) → Result Err A → Result Status B
responded map_err response (ok a) = ok (response a)
responded map_err response (err e) = err (map_err e)

-- A scenario with its error and its result mapped.
unfoldable pub respond : {A B : Type 0} → (Err → Status) → (A → B) → Action A → Exec World Status B
respond map_err response m w = let (r, w') = m w in (responded map_err response r, w')

module _ (x : External) (g : StatusLibrary) where
  unfoldable pub create_secret : CreateSecretRequest → Handler String
  unfolding create_secret_params respond err_no_user
  create_secret req = with_user err_no_user λ user_id.
      respond (map_secret_err g) (λ id. id)
        (Secrets.create_secret x pool (create_secret_params user_id req))

  unfoldable pub update_secret : UpdateSecretRequest → Handler ℕ
  unfolding update_secret_params respond err_no_user
  update_secret req = with_user err_no_user λ user_id.
      respond (map_secret_err g) (λ version. version)
        (Secrets.update_secret x pool (update_secret_params user_id req))

  unfoldable pub delete_secret : DeleteSecretRequest → Handler (Unit {0})
  unfolding delete_secret_params respond err_no_user
  delete_secret req = with_user err_no_user λ user_id.
      respond (map_secret_err g) (λ _. tt)
        (Secrets.delete_secret x pool (delete_secret_params user_id req))

  unfoldable pub list_row : String → Handler (List SecretRow)
  unfolding list_row_response respond err_no_user
  list_row vault_id = with_user err_no_user λ user_id.
      respond (map_secret_err g) list_row_response (Secrets.list_row x pool user_id vault_id)

  unfoldable pub list_index : String → Handler (List SecretIndex)
  unfolding list_index_response respond err_no_user
  list_index vault_id = with_user err_no_user λ user_id.
      respond (map_secret_err g) list_index_response (Secrets.list_index x pool user_id vault_id)

  unfoldable pub get_payload : String → Handler GetPayloadResponse
  unfolding get_payload_response respond err_no_user
  get_payload secret_id = with_user err_no_user λ user_id.
      respond (map_secret_err g) get_payload_response (Secrets.get_payload x pool user_id secret_id)

module _ (x : External) where
  unfoldable pub create_vault : CreateVaultRequest → Handler String
  unfolding create_vault_params respond err_no_user
  create_vault req = with_user err_no_user λ user_id.
      respond map_vault_err (λ id. id)
        (Vaults.create_vault x pool (create_vault_params user_id req))

  unfoldable pub list_vaults : Handler (List Vault)
  unfolding list_vaults_response respond err_no_user
  list_vaults =
      with_user err_no_user
        λ user_id. respond map_vault_err list_vaults_response (Vaults.list_vaults x pool user_id)

  unfoldable pub check_freshness : Handler (List VaultVersion)
  unfolding check_freshness_response respond err_no_user
  check_freshness = with_user err_no_user λ user_id.
      respond map_vault_err check_freshness_response (Vaults.check_freshness x pool user_id)
