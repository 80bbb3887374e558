-- ===== src/Rpc/GrpcClient/Evidence.antt =====
-- grpcclient/client.go: what a change that the server has accepted has left in its database.
use yandex_go_final_diploma.Prelude.{ℕ, String, ◌≡◌, refl, any}
use yandex_go_final_diploma.Exec.{ok}
use yandex_go_final_diploma.Server.Domain.{Bytes}
use yandex_go_final_diploma.Server.External.{UuidLaws}
use yandex_go_final_diploma.Server.Store.{Db}
use yandex_go_final_diploma.Server.Tx.{pool}
use yandex_go_final_diploma.Server.Secrets as Secrets
use yandex_go_final_diploma.Server.Secrets.Present.{
  Present, IsNew, IsEdited, IsRemoved, create_secret-Present, update_secret-Present,
  delete_secret-Present,
}
use yandex_go_final_diploma.Client.Replay.Recorded.{Change, created, updated, deleted, uploaded}
use yandex_go_final_diploma.Rpc.Messages.{
  CreateSecretRequest, UpdateSecretRequest, DeleteSecretRequest, to_int16,
}
use yandex_go_final_diploma.Rpc.Errors.{map_err, change_err, map_secret_err}
use yandex_go_final_diploma.Rpc.Auth.{methods_without_auth}
use yandex_go_final_diploma.Rpc.Handlers as Handlers
use yandex_go_final_diploma.Rpc.Handlers.{
  respond, create_secret_params, update_secret_params, delete_secret_params,
}
use yandex_go_final_diploma.Rpc.Network.{Remote}
use yandex_go_final_diploma.Rpc.GrpcClient.{Site, create_secret, update_secret, delete_secret}
use yandex_go_final_diploma.Rpc.GrpcClient.Past.{Left, reading-leaves, respond-leaves}

module _ (site : Site) where
  -- A call has left a database in which the change had just been made. Of uploads nothing is said.
  abbrev pub Evident : Change → Remote → Type 0
  Evident (created id vault_id type enc_row enc_index enc_payload) = Left (
      Present site.external id
        (IsNew site.external vault_id (to_int16 type) enc_row enc_index enc_payload))
  Evident (updated id base_version enc_row enc_index enc_payload) =
      Left (Present site.external id (IsEdited base_version enc_row enc_index enc_payload))
  Evident (deleted id base_version) = Left (Present site.external id (IsRemoved base_version))
  Evident (uploaded _ _) = λ r. Unit

module _ (site : Site) (uuids : UuidLaws site.external) (token : String) where
  pub create_secret-Evident :
      (id vault_id : String) (type : ℕ) (enc_row enc_index enc_payload : Bytes) (r : Remote)
      (u : Unit {0})
      → (create_secret site token id vault_id type enc_row enc_index enc_payload r).0 ≡ ok u
      → Evident site
          (created id vault_id type enc_row enc_index enc_payload)
          (create_secret site token id vault_id type enc_row enc_index enc_payload r).1
  unfolding create_secret Handlers.create_secret create_secret_params any methods_without_auth
  create_secret-Evident id vault_id type enc_row enc_index enc_payload r u h =
      let req : CreateSecretRequest = record {
        secret_id = id;
        vault_id = vault_id;
        type = type;
        enc_row = enc_row;
        enc_index = enc_index;
        enc_payload = enc_payload;
      } in
      let Q : Db → Type 0 =
        Present site.external id
          (IsNew site.external vault_id (to_int16 type) enc_row enc_index enc_payload) in
      reading-leaves map_err _ site "/gophkeeper.v1.SecretService/CreateSecret" token _ refl Q
        (λ user_id w a.
          respond-leaves Q (map_secret_err site.statuses) (λ i. i)
            (Secrets.create_secret site.external pool (create_secret_params user_id req)) w a
            (create_secret-Present site.external uuids (create_secret_params user_id req) w))
        r u h

  pub update_secret-Evident :
      (id : String) (base_version : ℕ) (enc_row enc_index enc_payload : Bytes) (r : Remote) (n : ℕ)
      → (update_secret site token id base_version enc_row enc_index enc_payload r).0 ≡ ok n
      → Evident site
          (updated id base_version enc_row enc_index enc_payload)
          (update_secret site token id base_version enc_row enc_index enc_payload r).1
  unfolding update_secret Handlers.update_secret update_secret_params any methods_without_auth
  update_secret-Evident id base_version enc_row enc_index enc_payload r n h =
      let req : UpdateSecretRequest = record {
        secret_id = id;
        base_version = base_version;
        enc_row = enc_row;
        enc_index = enc_index;
        enc_payload = enc_payload;
      } in
      let Q : Db → Type 0 =
        Present site.external id (IsEdited base_version enc_row enc_index enc_payload) in
      reading-leaves change_err _ site "/gophkeeper.v1.SecretService/UpdateSecret" token _ refl Q
        (λ user_id w a.
          respond-leaves Q (map_secret_err site.statuses) (λ v. v)
            (Secrets.update_secret site.external pool (update_secret_params user_id req)) w a
            (update_secret-Present site.external uuids (update_secret_params user_id req) w))
        r n h

  pub delete_secret-Evident :
      (id : String) (base_version : ℕ) (r : Remote) (u : Unit {0})
      → (delete_secret site token id base_version r).0 ≡ ok u
      → Evident site (deleted id base_version) (delete_secret site token id base_version r).1
  unfolding delete_secret Handlers.delete_secret delete_secret_params any methods_without_auth
  delete_secret-Evident id base_version r u h =
      let req : DeleteSecretRequest = record { secret_id = id; base_version = base_version } in
      let Q : Db → Type 0 = Present site.external id (IsRemoved base_version) in
      reading-leaves change_err _ site "/gophkeeper.v1.SecretService/DeleteSecret" token _ refl Q
        (λ user_id w a.
          respond-leaves Q (map_secret_err site.statuses) (λ _. tt)
            (Secrets.delete_secret site.external pool (delete_secret_params user_id req)) w a
            (delete_secret-Present site.external uuids (delete_secret_params user_id req) w))
        r u h
