-- ===== src/Server/Vaults.antt =====
-- internal/server/usecase/vault: the scenarios on vaults.
pub mod Spec
pub mod Refines
pub mod Freshness
use yandex_go_final_diploma.Prelude.{ℕ, String, false, List, [], ◌∷◌, map}
use yandex_go_final_diploma.Exec.{pure, refuse_if, ◌>>=◌, ◌>>◌}
use yandex_go_final_diploma.Server.Domain.{Bytes}
use yandex_go_final_diploma.Server.Errors.{vault, VaultErr, empty_vault_key, empty_enc_name}
use yandex_go_final_diploma.Server.External.{External}
use yandex_go_final_diploma.Server.Store.{Action}
use yandex_go_final_diploma.Server.Tx.{Ctx, q}
use yandex_go_final_diploma.Server.Repo.Vaults as Repo
use yandex_go_final_diploma.Server.Repo.Vaults.{Version}
use yandex_go_final_diploma.Server.Secrets.{is_empty, is_empty_text}

pub record CreateParams : Type 0 where
  pub user_id : String
  pub wrapped_vault_key : Bytes
  pub enc_name : Bytes

pub record Tier1 : Type 0 where
  pub id : String
  pub wrapped_vault_key : Bytes
  pub enc_name : Bytes
  pub version : ℕ

module _ (x : External) where
  unfoldable pub create_vault : Ctx → CreateParams → Action String
  create_vault ctx p = do
    refuse_if (is_empty_text p.user_id) (vault VaultErr.empty_user_id)
    refuse_if (is_empty p.wrapped_vault_key) (vault empty_vault_key)
    refuse_if (is_empty p.enc_name) (vault empty_enc_name)
    created ← Repo.create x (q ctx) (record {
      id = "";
      user_id = p.user_id;
      wrapped_vault_key = p.wrapped_vault_key;
      enc_name = p.enc_name;
      version = 0;
      deleted = false;
    })
    pure created.id

  unfoldable pub check_freshness : Ctx → String → Action (List Version)
  check_freshness ctx user_id = do
    refuse_if (is_empty_text user_id) (vault VaultErr.empty_user_id)
    Repo.check_freshness x (q ctx) user_id

  unfoldable pub list_vaults : Ctx → String → Action (List Tier1)
  list_vaults ctx user_id = do
    refuse_if (is_empty_text user_id) (vault VaultErr.empty_user_id)
    vaults ← Repo.list_by_user x (q ctx) user_id
    pure (
        map
          (λ v. record {
            id = v.id;
            wrapped_vault_key = v.wrapped_vault_key;
            enc_name = v.enc_name;
            version = v.version;
          })
          vaults)
