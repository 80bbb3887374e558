-- ===== src/Server/Secrets/Decides.antt =====
-- The bodies of the transactions on secrets against the decisions of the specification.
use yandex_go_final_diploma.Prelude.{ℕ, String, ◌≡◌, some, inl, inr, Option-cases, arith}
use yandex_go_final_diploma.Exec.{refuse_if, ◌>>=◌}
use yandex_go_final_diploma.Server.Domain.{Secret}
use yandex_go_final_diploma.Server.External.{External, UuidLaws}
use yandex_go_final_diploma.Server.Store.{Db, SecretRow, VaultRow, atomic, keep_on_error}
use yandex_go_final_diploma.Server.Store.Queries
use yandex_go_final_diploma.Server.Store.Queries.{find_secret, find_vault, vault_of_user}
use yandex_go_final_diploma.Server.Store.Accounts.{vault_belongs_to_user}
use yandex_go_final_diploma.Server.Tx.{alone}
use yandex_go_final_diploma.Server.Tx.Runs.{hide_no_rows}
use yandex_go_final_diploma.Server.Repo.{parse_uuid_or}
use yandex_go_final_diploma.Server.Repo.Secrets as Repo
use yandex_go_final_diploma.Server.Repo.Secrets.{to_secret}
use yandex_go_final_diploma.Server.Secrets.{
  CreateParams, UpdateParams, DeleteParams, AttachBlobParams, check_current, create_body,
  update_body, delete_body, attach_body,
}
use yandex_go_final_diploma.Server.Secrets.Spec
use yandex_go_final_diploma.Server.Secrets.Spec.{
  Decision, on_owned, owned_secret, apply_update, apply_delete, apply_attach, on_vault,
  apply_create,
}

module _ (x : External) where
  -- Reading under lock hands the owner the row, and anybody else the refusal.
  get_for_update-decides :
      {A : Type 0} (secret_id user_id : String) (k : Secret → Decision A) (d : Db)
      → (Repo.get_for_update x alone secret_id user_id >>= k) d
        ≡ on_owned x secret_id user_id (λ sid r v. k (to_secret x r)) d
  unfolding Repo.get_for_update on_owned parse_uuid_or hide_no_rows Queries.get_secret_for_update
      atomic keep_on_error
  get_for_update-decides secret_id user_id k d = ground arith

module _ (x : External) (laws : UuidLaws x) where
  owned_secret-finds :
      (sid uid : ℕ) (d : Db) (r : SecretRow) (v : VaultRow)
      → owned_secret sid uid d ≡ some (r, v)
      → (find_secret sid d ≡ some r) × (find_vault r.vault_id d ≡ some v) × (v.user_id ≡ uid)
  unfolding owned_secret
  owned_secret-finds sid uid d r v h = ground arith

  -- Two decisions on an owned secret agree if they agree on each row that is there.
  on_owned-decides :
      {A : Type 0} (secret_id user_id : String) (k l : ℕ → SecretRow → VaultRow → Decision A)
      (d : Db)
      → ((sid : ℕ) (r : SecretRow) (v : VaultRow)
          → x.parse_uuid secret_id ≡ some sid
          → find_secret sid d ≡ some r
          → find_vault r.vault_id d ≡ some v
          → keep_on_error d (k sid r v d) ≡ l sid r v d)
      → keep_on_error d (on_owned x secret_id user_id k d) ≡ on_owned x secret_id user_id l d
  unfolding on_owned keep_on_error
  on_owned-decides secret_id user_id k l d h = elim (Option-cases (x.parse_uuid secret_id)) [
    | inl e ↦ rw (e, on_owned)
    | inr (sid, e) ↦ elim (Option-cases (x.parse_uuid user_id)) [
      | inl f ↦ rw (e, f, on_owned)
      | inr (uid, f) ↦ elim (Option-cases (owned_secret sid uid d)) [
        | inl g ↦ rw (e, f, g, on_owned)
        | inr ((r, v), g) ↦
            let found = owned_secret-finds sid uid d r v g in
            rw (e, f, g, on_owned) (h sid r v e found.0 found.1)
      ]
    ]
  ]

  pub update_body-decides :
      (p : UpdateParams) (d : Db)
      → atomic (update_body x alone p) d ≡ on_owned x p.secret_id p.user_id (apply_update x p) d
  unfolding atomic refuse_if update_body keep_on_error check_current apply_update Spec.write
      Repo.update_fields Repo.bump_vault_version parse_uuid_or Queries.update_secret_fields
      Queries.bump_vault_version to_secret
  update_body-decides p d =
      rw (get_for_update-decides x p.secret_id p.user_id)
        (on_owned-decides _ _ _ _ d λ sid r v e f g. ground (arith, laws.parse-text r.vault_id))

  pub delete_body-decides :
      (p : DeleteParams) (d : Db)
      → atomic (delete_body x alone p) d ≡ on_owned x p.secret_id p.user_id (apply_delete x p) d
  unfolding atomic refuse_if delete_body keep_on_error check_current apply_delete Spec.write
      Repo.soft_delete Repo.bump_vault_version parse_uuid_or Queries.soft_delete_secret
      Queries.bump_vault_version to_secret
  delete_body-decides p d =
      rw (get_for_update-decides x p.secret_id p.user_id)
        (on_owned-decides _ _ _ _ d λ sid r v e f g. ground (arith, laws.parse-text r.vault_id))

  pub attach_body-decides :
      (p : AttachBlobParams) (d : Db)
      → atomic (attach_body x alone p) d ≡ on_owned x p.secret_id p.user_id (apply_attach x p) d
  unfolding atomic refuse_if attach_body keep_on_error apply_attach Spec.write Repo.attach_blob
      Repo.bump_vault_version parse_uuid_or Queries.attach_blob Queries.bump_vault_version to_secret
  attach_body-decides p d =
      rw (get_for_update-decides x p.secret_id p.user_id)
        (on_owned-decides _ _ _ _ d λ sid r v e f g. ground (arith, laws.parse-text r.vault_id))

module _ (x : External) where
  pub create_body-decides :
      (p : CreateParams) (d : Db)
      → atomic (create_body x alone p) d ≡ on_vault x p.vault_id p.user_id (apply_create x p) d
  unfolding atomic refuse_if create_body keep_on_error on_vault apply_create Repo.is_owner
      Repo.create Repo.bump_vault_version parse_uuid_or Queries.create_secret
      Queries.bump_vault_version vault_belongs_to_user
  create_body-decides p d = ground arith
