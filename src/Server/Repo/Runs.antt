-- ===== src/Server/Repo/Runs.antt =====
-- Each repository function, in a transaction or on the pool, comes to itself over the database alone.
use yandex_go_final_diploma.Prelude.{ℕ, String, false, Option, none, some}
use yandex_go_final_diploma.Exec.{pure, raise}
use yandex_go_final_diploma.Server.Domain.{Bytes, Secret}
use yandex_go_final_diploma.Server.Errors.{Err}
use yandex_go_final_diploma.Server.External.{External}
use yandex_go_final_diploma.Server.Store.{Query}
use yandex_go_final_diploma.Server.Tx.{Ctx, Call, q, alone}
use yandex_go_final_diploma.Server.Tx.Runs.{
  Runs, Runs-pure, Runs-raise, Runs-bind, Runs-querier, Runs-hide_no_rows,
}
use yandex_go_final_diploma.Server.Repo.{parse_uuid_or}
use yandex_go_final_diploma.Server.Repo.Secrets

module _ (x : External) where
  pub Runs-parse_uuid_or :
      (id : String) (e : Err) → Runs (parse_uuid_or x id e) (parse_uuid_or x id e)
  unfolding parse_uuid_or
  Runs-parse_uuid_or id e =
      elim (x.parse_uuid id)
        as (λ o.
          Runs (elim o [ none ↦ raise e | some n ↦ pure n ])
            (elim o [ none ↦ raise e | some n ↦ pure n ])) [
              | none ↦ Runs-raise e
              | some n ↦ Runs-pure n
            ]

module _ {A : Type 0} where
  pub Runs-q : (ctx : Ctx) (c : Call) (s : Query A) → Runs (q ctx A c s) (alone A c s)
  Runs-q ctx c s = Runs-querier ctx c s

pub ruleset statement_rules =
    (Runs-pure, Runs-raise, Runs-bind, Runs-q, Runs-hide_no_rows, Runs-parse_uuid_or)

module _ (x : External) (ctx : Ctx) where
  pub Runs-create : (s : Secret) → Runs (Secrets.create x (q ctx) s) (Secrets.create x alone s)
  unfolding Secrets.create
  Runs-create s = search statement_rules

  pub Runs-get_for_update :
      (secret_id user_id : String)
      → Runs
          (Secrets.get_for_update x (q ctx) secret_id user_id)
          (Secrets.get_for_update x alone secret_id user_id)
  unfolding Secrets.get_for_update
  Runs-get_for_update secret_id user_id = search statement_rules

  pub Runs-update_fields :
      (secret_id : String) (enc_row enc_index enc_payload : Bytes)
      → Runs
          (Secrets.update_fields x (q ctx) secret_id enc_row enc_index enc_payload)
          (Secrets.update_fields x alone secret_id enc_row enc_index enc_payload)
  unfolding Secrets.update_fields
  Runs-update_fields secret_id enc_row enc_index enc_payload = search statement_rules

  pub Runs-soft_delete :
      (secret_id : String)
      → Runs (Secrets.soft_delete x (q ctx) secret_id) (Secrets.soft_delete x alone secret_id)
  unfolding Secrets.soft_delete
  Runs-soft_delete secret_id = search statement_rules

  pub Runs-attach_blob :
      (secret_id blob_ref : String) (blob_size : ℕ)
      → Runs
          (Secrets.attach_blob x (q ctx) secret_id blob_ref blob_size)
          (Secrets.attach_blob x alone secret_id blob_ref blob_size)
  unfolding Secrets.attach_blob
  Runs-attach_blob secret_id blob_ref blob_size = search statement_rules

  pub Runs-bump_vault_version :
      (vault_id : String)
      → Runs
          (Secrets.bump_vault_version x (q ctx) vault_id)
          (Secrets.bump_vault_version x alone vault_id)
  unfolding Secrets.bump_vault_version
  Runs-bump_vault_version vault_id = search statement_rules

  pub Runs-list_row :
      (vault_id user_id : String)
      → Runs
          (Secrets.list_row x (q ctx) vault_id user_id)
          (Secrets.list_row x alone vault_id user_id)
  unfolding Secrets.list_row
  Runs-list_row vault_id user_id = search statement_rules

  pub Runs-list_index :
      (vault_id user_id : String)
      → Runs
          (Secrets.list_index x (q ctx) vault_id user_id)
          (Secrets.list_index x alone vault_id user_id)
  unfolding Secrets.list_index
  Runs-list_index vault_id user_id = search statement_rules

  pub Runs-get_payload :
      (secret_id user_id : String)
      → Runs
          (Secrets.get_payload x (q ctx) secret_id user_id)
          (Secrets.get_payload x alone secret_id user_id)
  unfolding Secrets.get_payload
  Runs-get_payload secret_id user_id = search statement_rules

  Runs-is_owner_of :
      (vault_id : Option ℕ) (user_id : String)
      → Runs
          (Secrets.is_owner_of x (q ctx) vault_id user_id)
          (Secrets.is_owner_of x alone vault_id user_id)
  unfolding Secrets.is_owner_of
  Runs-is_owner_of none user_id = Runs-pure false
  Runs-is_owner_of (some vid) user_id = search statement_rules

  pub Runs-is_owner :
      (vault_id user_id : String)
      → Runs
          (Secrets.is_owner x (q ctx) vault_id user_id)
          (Secrets.is_owner x alone vault_id user_id)
  unfolding Secrets.is_owner
  Runs-is_owner vault_id user_id = Runs-is_owner_of (x.parse_uuid vault_id) user_id

pub ruleset repo_rules = (
  Runs-create, Runs-get_for_update, Runs-update_fields, Runs-soft_delete, Runs-attach_blob,
  Runs-bump_vault_version, Runs-is_owner,
)
