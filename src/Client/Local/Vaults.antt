-- ===== src/Client/Local/Vaults.antt =====
-- localstore/vault_repo.go
use yandex_go_final_diploma.Prelude.{
  ℕ, String, Bool, not, Option, none, some, List, [], ◌∷◌, ◌++◌, str_eq, find, select, update,
}
use yandex_go_final_diploma.Exec.{ok}
use yandex_go_final_diploma.Client.Local.{Local, LocalVault, Statement}
use yandex_go_final_diploma.Client.Local.Secrets.{order_by_id}

abbrev pub with_id : String → LocalVault → Bool
with_id id v = str_eq v.id id

unfoldable pub find_vault : String → Local → Option LocalVault
find_vault id l = find (with_id id) l.vaults

-- ON CONFLICT(id) DO UPDATE leaves `synced_version` and `sync_enabled` alone.
unfoldable pub refreshed : LocalVault → LocalVault → LocalVault
refreshed v old = record old {
  wrapped_vault_key = v.wrapped_vault_key;
  enc_name = v.enc_name;
  version = v.version;
  deleted = v.deleted;
}

unfoldable pub stored : LocalVault → Option LocalVault → List LocalVault → List LocalVault
unfolding refreshed
stored v none rows = rows ++ v ∷ []
stored v (some _) rows = update (with_id v.id) (refreshed v) rows

unfoldable pub upsert_vault : LocalVault → Statement (Unit {0})
unfolding find_vault stored
upsert_vault v l = (ok tt, record l { vaults = stored v (find_vault v.id l) l.vaults })

unfoldable pub list_vaults : Statement (List LocalVault)
unfolding order_by_id
list_vaults l = (ok (order_by_id (λ v. v.id) (select (λ v. not v.deleted) l.vaults)), l)

unfoldable pub get_vault : String → Statement (Option LocalVault)
unfolding find_vault
get_vault id l = (ok (find_vault id l), l)

unfoldable pub set_vault_synced_version : String → ℕ → Statement (Unit {0})
set_vault_synced_version id version l = (
  ok tt,
  record l { vaults = update (with_id id) (λ v. record v { synced_version = version }) l.vaults },
)

unfoldable pub set_vault_sync_enabled : String → Bool → Statement (Unit {0})
set_vault_sync_enabled id enabled l = (
  ok tt,
  record l { vaults = update (with_id id) (λ v. record v { sync_enabled = enabled }) l.vaults },
)

unfoldable pub delete_vault : String → Statement (Unit {0})
delete_vault id l = (ok tt, record l { vaults = select (λ v. not (with_id id v)) l.vaults })
