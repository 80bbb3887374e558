-- ===== src/Client/Sync.antt =====
-- internal/client/usecase/sync/engine.go: changes are pulled from the server into the local tables.
pub mod Listed
pub mod Guards
use yandex_go_final_diploma.Prelude.{
  ℕ, String, Bool, true, false, ◌&&◌, ◌||◌, not, Option, none, some, List, [], ◌∷◌, ◌++◌, map,
  str_eq, if◌then◌else◌, find, any, select, zero, suc, length, ltb,
}
use yandex_go_final_diploma.Exec.{Exec, Result, ok, err, pure, ◌>>=◌, ◌>>◌}
use yandex_go_final_diploma.Server.Domain.{Bytes}
use yandex_go_final_diploma.Client.Errors.{ClientErr}
use yandex_go_final_diploma.Client.Local.{
  Local, LocalVault, LocalSecret, OutboxEntry, OutboxStatus, conflicted,
}
use yandex_go_final_diploma.Client.Local.Secrets as Secrets
use yandex_go_final_diploma.Client.Local.Vaults as Vaults
use yandex_go_final_diploma.Client.Local.Outbox as Outbox
use yandex_go_final_diploma.Client.Device.{
  VaultItem, VaultVersion, SecretRowItem, ServerClient, Device, Scenario, run_local, run_remote,
  access_token, at_least,
}

-- The row of `needsVaultMeta`'s and `Sync`'s map. The ids of vaults are unique.
abbrev pub vault_with : String → List LocalVault → Option LocalVault
vault_with id vaults = find (Vaults.with_id id) vaults

-- `needsVaultMeta`
unfoldable pub needs_vault_meta : List VaultVersion → List LocalVault → Bool
needs_vault_meta [] local = false
needs_vault_meta (fv ∷ rest) local = elim (vault_with fv.id local) [
  | none ↦ true
  | some _ ↦ needs_vault_meta rest local
]

-- The tests with which the loop of `Sync` skips a vault, in their order.
unfoldable pub is_current : VaultVersion → List LocalVault → Bool
is_current fv local = elim (vault_with fv.id local) [
  | none ↦ false
  | some lv ↦ not lv.sync_enabled || at_least lv.synced_version fv.version
]

-- The row that `refreshVaultMeta` writes; the fields that Go leaves out have their zero values.
unfoldable pub vault_meta : VaultItem → LocalVault
vault_meta it = record {
  id = it.id;
  wrapped_vault_key = it.wrapped_vault_key;
  enc_name = it.enc_name;
  version = it.version;
  synced_version = 0;
  deleted = false;
  sync_enabled = false;
}

-- The row that `pullVaultRows` writes.
unfoldable pub pulled : String → SecretRowItem → LocalSecret
pulled vault_id r = record {
  id = r.id;
  vault_id = vault_id;
  type = r.type;
  enc_row = r.enc_row;
  enc_index = [];
  enc_payload = [];
  version = r.version;
  index_loaded = false;
  payload_loaded = false;
  dirty = false;
  deleted = false;
}

abbrev pub is_secret_entry : OutboxEntry → Bool
is_secret_entry e = str_eq e.entity "secret"

module _ {S : Type 0} (server : ServerClient S) where
  unfoldable pub upsert_vaults : List VaultItem → Scenario S (Unit {0})
  upsert_vaults [] = pure tt
  upsert_vaults (it ∷ items) = do
    run_local (Vaults.upsert_vault (vault_meta it))
    upsert_vaults items

  unfoldable pub refresh_vault_meta : String → Scenario S (Unit {0})
  refresh_vault_meta token = do items ← run_remote (server.list_vaults token); upsert_vaults items

  -- The map of ids is the list of its keys.
  unfoldable pub outstanding_secret_ids : Scenario S (List String)
  outstanding_secret_ids = do
    pending ← run_local Outbox.list_pending_outbox
    conflicts ← run_local (Outbox.list_outbox_by_status conflicted)
    pure (
        map (λ e. e.entity_id) (select is_secret_entry pending)
        ++ map (λ e. e.entity_id) (select is_secret_entry conflicts))

  unfoldable pub upsert_rows : String → List String → List SecretRowItem → Scenario S (Unit {0})
  upsert_rows vault_id pending_ids [] = pure tt
  upsert_rows vault_id pending_ids (r ∷ rows) = do
    (if any (str_eq r.id) pending_ids
        then pure tt
        else run_local (Secrets.upsert_secret_row (pulled vault_id r)))
    upsert_rows vault_id pending_ids rows

  unfoldable pub pull_vault_rows : String → String → ℕ → Scenario S (Unit {0})
  pull_vault_rows token vault_id version = do
    rows ← run_remote (server.list_secret_rows token vault_id)
    pending_ids ← outstanding_secret_ids
    upsert_rows vault_id pending_ids rows
    run_local (Vaults.set_vault_synced_version vault_id version)

  unfoldable pub pull_vaults : String → List LocalVault → List VaultVersion → Scenario S (Unit {0})
  pull_vaults token local [] = pure tt
  pull_vaults token local (fv ∷ rest) = do
    (if is_current fv local then pure tt else pull_vault_rows token fv.id fv.version)
    pull_vaults token local rest

  -- The vaults as they are known after the metadata of missing ones was fetched.
  unfoldable pub known_vaults : String → List VaultVersion → Scenario S (List LocalVault)
  known_vaults token freshness = do
    local ← run_local Vaults.list_vaults
    if needs_vault_meta freshness local
        then (refresh_vault_meta token >> run_local Vaults.list_vaults)
        else pure local

  unfoldable pub sync : Scenario S (Unit {0})
  sync = do
    token ← access_token
    freshness ← run_remote (server.check_freshness token)
    local ← known_vaults token freshness
    pull_vaults token local freshness

unfoldable pub set_vault_sync_enabled : {S : Type 0} → String → Bool → Scenario S (Unit {0})
set_vault_sync_enabled vault_id enabled = run_local (Vaults.set_vault_sync_enabled vault_id enabled)

abbrev pub kv_sync_scope_chosen : String
kv_sync_scope_chosen = "sync.scope_chosen"

-- `err == nil && ok && len(v) > 0`
unfoldable pub is_chosen : Result ClientErr (Option Bytes) → Bool
is_chosen (ok (some v)) = ltb 0 (length v)
is_chosen _ = false

unfoldable pub sync_scope_chosen : {S : Type 0} → Scenario S Bool
sync_scope_chosen d =
    let (r, d') = run_local (Outbox.kv_get kv_sync_scope_chosen) d in (ok (is_chosen r), d')

unfoldable pub mark_sync_scope_chosen : {S : Type 0} → Scenario S (Unit {0})
mark_sync_scope_chosen = run_local (Outbox.kv_set kv_sync_scope_chosen (49 ∷ []))
