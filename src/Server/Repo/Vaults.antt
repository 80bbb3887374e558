-- ===== src/Server/Repo/Vaults.antt =====
-- infra/postgres/repo_vault.go, but for `IsOwner`, which is with the secrets.
use yandex_go_final_diploma.Prelude.{ℕ, String, false, List, map}
use yandex_go_final_diploma.Exec.{Exec, pure, ◌>>=◌}
use yandex_go_final_diploma.Server.Domain.{Vault}
use yandex_go_final_diploma.Server.Errors.{Err, invalid_uuid}
use yandex_go_final_diploma.Server.External.{External}
use yandex_go_final_diploma.Server.Store.{VaultRow}
use yandex_go_final_diploma.Server.Store.Accounts
use yandex_go_final_diploma.Server.Tx.{Runner, query}
use yandex_go_final_diploma.Server.Repo.{parse_uuid_or}

-- `vault.Version`
pub record Version : Type 0 where
  pub id : String
  pub version : ℕ

unfoldable pub to_version : External → VaultRow → Version
to_version x v = record { id = x.uuid_text v.id; version = v.version }

-- The columns of `ListVaultsByUser`; it reads no `deleted`.
unfoldable pub to_vault : External → String → VaultRow → Vault
to_vault x user_id v = record {
  id = x.uuid_text v.id;
  user_id = user_id;
  wrapped_vault_key = v.wrapped_vault_key;
  enc_name = v.enc_name;
  version = v.version;
  deleted = false;
}

module _ {S : Type 0} (x : External) (q : Runner S) where
  unfoldable pub create : Vault → Exec S Err Vault
  create v = do
    user_id ← parse_uuid_or x v.user_id invalid_uuid
    row ← q _ query (Accounts.create_vault x user_id v.wrapped_vault_key v.enc_name)
    pure (record v { id = x.uuid_text row.id; version = row.version })

  unfoldable pub check_freshness : String → Exec S Err (List Version)
  check_freshness user_id = do
    uid ← parse_uuid_or x user_id invalid_uuid
    rows ← q _ query (Accounts.check_vault_freshness uid)
    pure (map (to_version x) rows)

  unfoldable pub list_by_user : String → Exec S Err (List Vault)
  list_by_user user_id = do
    uid ← parse_uuid_or x user_id invalid_uuid
    rows ← q _ query (Accounts.list_vaults_by_user uid)
    pure (map (to_vault x user_id) rows)
