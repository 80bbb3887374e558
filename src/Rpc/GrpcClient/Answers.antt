-- ===== src/Rpc/GrpcClient/Answers.antt =====
-- `UpdateSecret` and `DeleteSecret` of grpcclient/client.go, through the server's handlers.
use yandex_go_final_diploma.Prelude.{String, ◌≡◌, refl, any}
use yandex_go_final_diploma.Server.External.{UuidLaws}
use yandex_go_final_diploma.Server.Tx.{pool}
use yandex_go_final_diploma.Server.Secrets as Secrets
use yandex_go_final_diploma.Server.Secrets.Locking.{
  update_secret-Replaced, update_secret-Conflicts, update_secret-Unchanged, delete_secret-Replaced,
  delete_secret-Conflicts, delete_secret-Unchanged,
}
use yandex_go_final_diploma.Rpc.{StatusLaws}
use yandex_go_final_diploma.Rpc.Messages.{UpdateSecretRequest, DeleteSecretRequest}
use yandex_go_final_diploma.Rpc.Auth.{methods_without_auth}
use yandex_go_final_diploma.Rpc.Handlers as Handlers
use yandex_go_final_diploma.Rpc.Handlers.{
  Handler, with_user, err_no_user, respond, responded, update_secret_params, delete_secret_params,
}
use yandex_go_final_diploma.Rpc.Network.{Remote, transport}
use yandex_go_final_diploma.Rpc.GrpcClient.{Site, invoke, reading, update_secret, delete_secret}
use yandex_go_final_diploma.Rpc.GrpcClient.Changes.{wanted_edit, wanted_removal, Answers}
use yandex_go_final_diploma.Rpc.GrpcClient.Handled.{Decides, along-Answers}

module _ (site : Site) (uuids : UuidLaws site.external) (token : String) where
  update_secret-Decides :
      (req : UpdateSecretRequest)
      → Decides site
          (wanted_edit token req)
          (λ u. Secrets.update_secret site.external pool (update_secret_params u req))
  unfolding update_secret_params
  update_secret-Decides req = record {
    replaced = λ u. update_secret-Replaced site.external uuids (update_secret_params u req);
    conflicts = λ u. update_secret-Conflicts site.external uuids (update_secret_params u req);
    unchanged = λ u. update_secret-Unchanged site.external uuids (update_secret_params u req);
  }

  delete_secret-Decides :
      (req : DeleteSecretRequest)
      → Decides site
          (wanted_removal token req)
          (λ u. Secrets.delete_secret site.external pool (delete_secret_params u req))
  unfolding delete_secret_params
  delete_secret-Decides req = record {
    replaced = λ u. delete_secret-Replaced site.external uuids (delete_secret_params u req);
    conflicts = λ u. delete_secret-Conflicts site.external uuids (delete_secret_params u req);
    unchanged = λ u. delete_secret-Unchanged site.external uuids (delete_secret_params u req);
  }

  module _ (statuses : StatusLaws site.statuses) where
    -- The client's edits and deletions over the network are what their answers say. An answer that is no
    -- error: the token proved a user, and his change of the row was made on the database that the call
    -- met, at the base version; an edit is told the new version. A conflict: the row was live, the user's
    -- and at another version, the client got that row, and nothing was changed. Any other error: nothing
    -- was changed, unless the change was made and its reply was lost.
    pub changes-Answers :
        ((req : UpdateSecretRequest) (r : Remote)
          → let (a, r') =
              update_secret site token req.secret_id req.base_version req.enc_row req.enc_index
                req.enc_payload r in
            Answers site (wanted_edit token req) r (λ v n. v ≡ n) a r'.store)
        × ((req : DeleteSecretRequest) (r : Remote)
            → let (a, r') = delete_secret site token req.secret_id req.base_version r in
              Answers site (wanted_removal token req) r (λ _ _. Unit) a r'.store)
    unfolding update_secret delete_secret reading invoke transport Handlers.update_secret
        Handlers.delete_secret any methods_without_auth
    changes-Answers = (
      (λ req r.
          along-Answers site statuses (wanted_edit token req) _ (update_secret-Decides req) (λ v. v)
            (λ v. v) (λ v n. v ≡ n) (λ n. refl) "/gophkeeper.v1.SecretService/UpdateSecret" refl r
            r.passages refl),
      (λ req r.
          along-Answers site statuses (wanted_removal token req) _ (delete_secret-Decides req)
            (λ _. tt) (λ _. tt) (λ _ _. Unit) (λ n. tt) "/gophkeeper.v1.SecretService/DeleteSecret"
            refl r r.passages refl),
    )
