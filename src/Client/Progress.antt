-- ===== src/Client/Progress.antt =====
-- internal/client/usecase/sync/progress.go: synchronisation that reports its stages. The pause between
-- two vaults, which is there for demonstrations, is left out.
pub mod Same
use yandex_go_final_diploma.Prelude.{
  ℕ, ◌+◌, String, Bool, true, false, not, Option, none, some, List, [], ◌∷◌, ◌++◌, map,
  if◌then◌else◌, select, length,
}
use yandex_go_final_diploma.Exec.{Exec, Result, ok, err, pure, ◌>>=◌, ◌>>◌}
use yandex_go_final_diploma.Client.Errors.{ClientErr}
use yandex_go_final_diploma.Client.Local.{LocalVault}
use yandex_go_final_diploma.Client.Device.{
  VaultVersion, ServerClient, Device, Scenario, run_remote, access_token,
}
use yandex_go_final_diploma.Client.Sync.{is_current, known_vaults, pull_vault_rows}

pub data Stage : Type 0 where
  vaults rows index : Stage

pub record Progress : Type 0 where
  pub stage : Stage
  pub done : ℕ
  pub total : ℕ

-- The device, and what was sent to the channel.
pub record Reporting (S : Type 0) : Type 0 where
  pub device : Device S
  pub reported : List Progress

abbrev pub Reported : Type 0 → Type 0 → Type 0
Reported S A = Exec (Reporting S) ClientErr A

module _ {S : Type 0} where
  unfoldable pub report : Progress → Reported S (Unit {0})
  report p s = (ok tt, record s { reported = s.reported ++ p ∷ [] })

  unfoldable pub on_device : {A : Type 0} → Scenario S A → Reported S A
  on_device m s = let (r, d) = m s.device in (r, record s { device = d })

  -- A step whose error is passed over.
  unfoldable pub on_device_if_it_can : Scenario S (Unit {0}) → Reported S (Unit {0})
  on_device_if_it_can m s = let (r, d) = m s.device in (ok tt, record s { device = d })

-- The vaults that are behind the server and not switched off.
unfoldable pub to_sync : List VaultVersion → List LocalVault → List VaultVersion
unfolding is_current
to_sync freshness local = select (λ fv. not (is_current fv local)) freshness

-- `indexLoader`
abbrev pub Loader : Type 0 → Type 0
Loader S = String → Scenario S (Unit {0})

module _ {S : Type 0} (server : ServerClient S) where
  unfoldable pub pull_each : String → ℕ → ℕ → List VaultVersion → Reported S (Unit {0})
  unfolding report on_device pull_vault_rows
  pull_each token total done [] = pure tt
  pull_each token total done (fv ∷ rest) = do
    report (record { stage = rows; done = done + 1; total = total })
    on_device (pull_vault_rows server token fv.id fv.version)
    pull_each token total (done + 1) rest

  unfoldable pub load_each : Loader S → ℕ → ℕ → List String → Reported S (Unit {0})
  unfolding report on_device_if_it_can
  load_each load total done [] = pure tt
  load_each load total done (id ∷ rest) = do
    report (record { stage = index; done = done + 1; total = total })
    on_device_if_it_can (load id)
    load_each load total (done + 1) rest

  unfoldable pub load_indexes_of : Option (Loader S) → List VaultVersion → Reported S (Unit {0})
  unfolding load_each
  load_indexes_of none synced = pure tt
  load_indexes_of (some load) synced = load_each load (length synced) 0 (map (λ fv. fv.id) synced)

  unfoldable pub sync_with_progress : Option (Loader S) → Reported S (Unit {0})
  unfolding on_device access_token report known_vaults to_sync pull_each load_indexes_of
  sync_with_progress loader = do
    token ← on_device access_token
    report (record { stage = vaults; done = 0; total = 0 })
    freshness ← on_device (run_remote (server.check_freshness token))
    local ← on_device (known_vaults server token freshness)
    pull_each token (length (to_sync freshness local)) 0 (to_sync freshness local)
    load_indexes_of loader (to_sync freshness local)
