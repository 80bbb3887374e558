-- ===== src/Server/Secrets/Refines.antt =====
-- The scenarios on secrets, with retries, transactions and failures, against their specification.
use yandex_go_final_diploma.Prelude.{ℕ, arith}
use yandex_go_final_diploma.Exec.{refuse_if, ◌>>◌}
use yandex_go_final_diploma.Server.Domain.{Secret}
use yandex_go_final_diploma.Server.Errors.{
  secret, SecretErr, empty_enc_row, empty_enc_index, empty_blob_ref,
}
use yandex_go_final_diploma.Server.External.{External, UuidLaws}
use yandex_go_final_diploma.Server.Store.{atomic}
use yandex_go_final_diploma.Server.Tx.{Ctx, pool, tx, q, alone}
use yandex_go_final_diploma.Server.Tx.Runs.{
  Runs, Serves, Runs-pure, Runs-bind, Runs-refuse_if, Serves-do_tx, Serves-guard, Serves-as,
}
use yandex_go_final_diploma.Server.Repo.Runs.{repo_rules}
use yandex_go_final_diploma.Server.Secrets.Spec
use yandex_go_final_diploma.Server.Secrets.Decides.{
  create_body-decides, update_body-decides, delete_body-decides, attach_body-decides,
}
use yandex_go_final_diploma.Server.Secrets.{
  CreateParams, UpdateParams, DeleteParams, AttachBlobParams, is_empty, is_empty_text,
  check_current, create_body, update_body, delete_body, attach_body, create_secret, update_secret,
  delete_secret, attach_blob,
}

Runs-check_current :
    (base_version : ℕ) (current : Secret)
    → Runs (check_current base_version current) (check_current base_version current)
unfolding check_current
Runs-check_current base_version current = search (Runs-bind, Runs-refuse_if)

ruleset body_rules = (Runs-pure, Runs-bind, Runs-refuse_if, Runs-check_current, repo_rules)

module _ (x : External) (ctx : Ctx) where
  Runs-create_body : (p : CreateParams) → Runs (create_body x (q ctx) p) (create_body x alone p)
  unfolding create_body
  Runs-create_body p = search body_rules

  Runs-update_body : (p : UpdateParams) → Runs (update_body x (q ctx) p) (update_body x alone p)
  unfolding update_body
  Runs-update_body p = search body_rules

  Runs-delete_body : (p : DeleteParams) → Runs (delete_body x (q ctx) p) (delete_body x alone p)
  unfolding delete_body
  Runs-delete_body p = search body_rules

  Runs-attach_body : (p : AttachBlobParams) → Runs (attach_body x (q ctx) p) (attach_body x alone p)
  unfolding attach_body
  Runs-attach_body p = search body_rules depth 8

module _ (x : External) (laws : UuidLaws x) where
  -- An edit, whatever the environment does, makes the decision of the specification on the database as
  -- a whole, or reports a fault of the environment and has changed nothing; in a calm environment it
  -- makes the decision.
  pub Serves-update_secret :
      (p : UpdateParams) → Serves (update_secret x pool p) (Spec.update_secret x p)
  unfolding update_secret
  Serves-update_secret p =
      Serves-as
        {plain = do
          refuse_if (is_empty_text p.user_id) (secret SecretErr.empty_user_id)
          refuse_if (is_empty_text p.secret_id) (secret SecretErr.empty_secret_id)
          refuse_if (is_empty p.enc_row) (secret empty_enc_row)
          refuse_if (is_empty p.enc_index) (secret empty_enc_index)
          atomic (update_body x alone p)}
        (Serves-guard (is_empty_text p.user_id) (secret SecretErr.empty_user_id) _ _ (
          Serves-guard (is_empty_text p.secret_id) (secret SecretErr.empty_secret_id) _ _ (
            Serves-guard (is_empty p.enc_row) (secret empty_enc_row) _ _ (
              Serves-guard (is_empty p.enc_index) (secret empty_enc_index) _ _ (
                Serves-do_tx (λ c. update_body x (q c) p) (update_body x alone p)
                  (Runs-update_body x tx p))))))
        (λ d.
          unfold refuse_if Spec.unless Spec.update_secret in
          ground (arith, update_body-decides x laws p d))

  -- A deletion, whatever the environment does, makes the decision of the specification on the database
  -- as a whole, or reports a fault of the environment and has changed nothing; in a calm environment it
  -- makes the decision.
  pub Serves-delete_secret :
      (p : DeleteParams) → Serves (delete_secret x pool p) (Spec.delete_secret x p)
  unfolding delete_secret
  Serves-delete_secret p =
      Serves-as
        {plain = do
          refuse_if (is_empty_text p.user_id) (secret SecretErr.empty_user_id)
          refuse_if (is_empty_text p.secret_id) (secret SecretErr.empty_secret_id)
          atomic (delete_body x alone p)}
        (Serves-guard (is_empty_text p.user_id) (secret SecretErr.empty_user_id) _ _ (
          Serves-guard (is_empty_text p.secret_id) (secret SecretErr.empty_secret_id) _ _ (
            Serves-do_tx (λ c. delete_body x (q c) p) (delete_body x alone p)
              (Runs-delete_body x tx p))))
        (λ d.
          unfold refuse_if Spec.unless Spec.delete_secret in
          ground (arith, delete_body-decides x laws p d))

  -- The attachment of a blob, whatever the environment does, makes the decision of the specification on
  -- the database as a whole, or reports a fault of the environment and has changed nothing; in a calm
  -- environment it makes the decision. In it the version of the secret stays as it is and is
  -- returned, while its vault counts up, whereas the comments of attach_blob.go:18, repo_secret.go:123
  -- and blob_service.go:113 and the test of the use case say that the version grows.
  pub Serves-attach_blob :
      (p : AttachBlobParams) → Serves (attach_blob x pool p) (Spec.attach_blob x p)
  unfolding attach_blob
  Serves-attach_blob p =
      Serves-as
        {plain = do
          refuse_if (is_empty_text p.user_id) (secret SecretErr.empty_user_id)
          refuse_if (is_empty_text p.secret_id) (secret SecretErr.empty_secret_id)
          refuse_if (is_empty_text p.blob_ref) (secret empty_blob_ref)
          atomic (attach_body x alone p)}
        (Serves-guard (is_empty_text p.user_id) (secret SecretErr.empty_user_id) _ _ (
          Serves-guard (is_empty_text p.secret_id) (secret SecretErr.empty_secret_id) _ _ (
            Serves-guard (is_empty_text p.blob_ref) (secret empty_blob_ref) _ _ (
              Serves-do_tx (λ c. attach_body x (q c) p) (attach_body x alone p)
                (Runs-attach_body x tx p)))))
        (λ d.
          unfold refuse_if Spec.unless Spec.attach_blob in
          ground (arith, attach_body-decides x laws p d))

module _ (x : External) where
  -- A creation, whatever the environment does, makes the decision of the specification on the database
  -- as a whole, or reports a fault of the environment and has changed nothing; in a calm environment it
  -- makes the decision.
  pub Serves-create_secret :
      (p : CreateParams) → Serves (create_secret x pool p) (Spec.create_secret x p)
  unfolding create_secret
  Serves-create_secret p =
      Serves-as
        {plain = do
          refuse_if (is_empty_text p.user_id) (secret SecretErr.empty_user_id)
          refuse_if (is_empty_text p.vault_id) (secret SecretErr.empty_vault_id)
          refuse_if (is_empty_text p.secret_id) (secret SecretErr.empty_secret_id)
          refuse_if (is_empty p.enc_row) (secret empty_enc_row)
          refuse_if (is_empty p.enc_index) (secret empty_enc_index)
          atomic (create_body x alone p)}
        (Serves-guard (is_empty_text p.user_id) (secret SecretErr.empty_user_id) _ _ (
          Serves-guard (is_empty_text p.vault_id) (secret SecretErr.empty_vault_id) _ _ (
            Serves-guard (is_empty_text p.secret_id) (secret SecretErr.empty_secret_id) _ _ (
              Serves-guard (is_empty p.enc_row) (secret empty_enc_row) _ _ (
                Serves-guard (is_empty p.enc_index) (secret empty_enc_index) _ _ (
                  Serves-do_tx (λ c. create_body x (q c) p) (create_body x alone p)
                    (Runs-create_body x tx p)))))))
        (λ d.
          unfold refuse_if Spec.unless Spec.create_secret in
          ground (arith, create_body-decides x p d))

-- If the text of a UUID reads back: a creation, an edit and a deletion of a secret, whatever the
-- environment does, each make the decision of the specification on the database as a whole, or report
-- a fault of the environment and have changed nothing; in a calm environment they make the decision.
pub changes-Serve :
    (x : External) (laws : UuidLaws x) (new : CreateParams) (edit : UpdateParams)
    (removal : DeleteParams)
    → Serves (create_secret x pool new) (Spec.create_secret x new)
      × Serves (update_secret x pool edit) (Spec.update_secret x edit)
      × Serves (delete_secret x pool removal) (Spec.delete_secret x removal)
changes-Serve x laws new edit removal = (
  Serves-create_secret x new,
  Serves-update_secret x laws edit,
  Serves-delete_secret x laws removal,
)
