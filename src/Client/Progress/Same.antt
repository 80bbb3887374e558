-- ===== src/Client/Progress/Same.antt =====
-- The two ways to synchronise do the same to the device.
use yandex_go_final_diploma.Prelude.{
  ℕ, ◌+◌, String, Bool, true, false, not, none, List, [], ◌∷◌, ◌≡◌, refl, ap, ◌∙◌, if◌then◌else◌,
  select, length,
}
use yandex_go_final_diploma.Exec.{Result, ok, err, pure, continue, ◌>>=◌, ◌>>◌}
use yandex_go_final_diploma.Client.Errors.{ClientErr}
use yandex_go_final_diploma.Client.Local.{LocalVault}
use yandex_go_final_diploma.Client.Device.{
  VaultVersion, ServerClient, Device, Scenario, run_remote, access_token,
}
use yandex_go_final_diploma.Client.Sync.{
  is_current, known_vaults, pull_vault_rows, pull_vaults, sync,
}
use yandex_go_final_diploma.Client.Progress.{
  Progress, vaults, Reporting, Reported, report, on_device, to_sync, pull_each, load_indexes_of,
  sync_with_progress,
}

module _ {S : Type 0} where
  -- The same answer, and the same device in the end.
  pub record Same {A : Type 0} (m : Reported S A) (n : Scenario S A) : Type 0 where
    pub answers : (s : Reporting S) → (m s).0 ≡ (n s.device).0
    pub device_after : (s : Reporting S) → (m s).1.device ≡ (n s.device).1

  pure-Same : {A : Type 0} (a : A) → Same (pure a) (pure a)
  pure-Same a = record { answers = λ s. refl; device_after = λ s. refl }

  on_device-Same : {A : Type 0} (m : Scenario S A) → Same (on_device m) m
  unfolding on_device
  on_device-Same m = record { answers = λ s. refl; device_after = λ s. refl }

  report-Same :
      {A : Type 0} (p : Progress) (m : Reported S A) (n : Scenario S A)
      → Same m n
      → Same (report p >> m) n
  unfolding report
  report-Same p m n same = record {
    answers = λ s. same.answers _;
    device_after = λ s. same.device_after _;
  }

  module _ {A B : Type 0} (k : A → Reported S B) (l : A → Scenario S B)
      (same : (a : A) → Same (k a) (l a)) where
    continue-Same :
        (r : Result ClientErr A) (s : Reporting S)
        → ((continue r k s).0 ≡ (continue r l s.device).0)
          × ((continue r k s).1.device ≡ (continue r l s.device).1)
    continue-Same (ok a) s = ((same a).answers s, (same a).device_after s)
    continue-Same (err e) s = (refl, refl)

    bind-Same : (m : Reported S A) (n : Scenario S A) → Same m n → Same (m >>= k) (n >>= l)
    bind-Same m n mn = record {
      answers = λ s. (continue-Same (m s).0 (m s).1).0 ∙ moved (λ r. r.0) s;
      device_after = λ s. (continue-Same (m s).0 (m s).1).1 ∙ moved (λ r. r.1) s;
    }
      where
        moved :
            {C : Type 0} (f : Result ClientErr B × Device S → C) (s : Reporting S)
            → f (continue (m s).0 l (m s).1.device) ≡ f (continue (n s.device).0 l (n s.device).1)
        moved f s =
            ap (λ r. f (continue r l (m s).1.device)) (mn.answers s)
            ∙ ap (λ d. f (continue (n s.device).0 l d)) (mn.device_after s)

  then_done :
      (m : Reported S (Unit {0})) (n : Scenario S (Unit {0})) → Same m n → Same (m >> pure tt) n
  then_done m n same = record {
    answers = λ s. ended (m s).0 (m s).1 ∙ same.answers s;
    device_after = λ s. ap (λ t. t.device) (ended_state (m s).0 (m s).1) ∙ same.device_after s;
  }
    where
      ended :
          (r : Result ClientErr (Unit {0})) (s : Reporting S) → (continue r (λ _. pure tt) s).0 ≡ r
      ended (ok a) s = refl
      ended (err e) s = refl

      ended_state :
          (r : Result ClientErr (Unit {0})) (s : Reporting S)
          → (continue r (λ _. pure {E = ClientErr} tt) s).1 ≡ s
      ended_state (ok a) s = refl
      ended_state (err e) s = refl

module _ {S : Type 0} (server : ServerClient S) (token : String) (total : ℕ) where
  -- One vault, which is skipped if b.
  step-Same :
      (b : Bool) (fv : VaultVersion) (rest : List VaultVersion) (n : Scenario S (Unit {0}))
      → ((done : ℕ) → Same (pull_each server token total done rest) n)
      → (done : ℕ)
      → Same
          (pull_each server token total done (if not b then fv ∷ rest else rest))
          ((if b then pure tt else pull_vault_rows server token fv.id fv.version) >> n)
  unfolding pull_each
  step-Same true fv rest n same done = same done
  step-Same false fv rest n same done = report-Same _ _ _ (
      bind-Same (λ _. pull_each server token total (done + 1) rest) (λ _. n) (λ _. same (done + 1))
        _ _ (on_device-Same _))

  pull_each-Same :
      (local : List LocalVault) (freshness : List VaultVersion) (done : ℕ)
      → Same
          (pull_each server token total done (to_sync freshness local))
          (pull_vaults server token local freshness)
  unfolding pull_each pull_vaults to_sync select
  pull_each-Same local [] done = pure-Same tt
  pull_each-Same local (fv ∷ rest) done =
      step-Same (is_current fv local) fv (to_sync rest local) (pull_vaults server token local rest)
        (pull_each-Same local rest) done

module _ {S : Type 0} (server : ServerClient S) where
  -- Without a loader of indexes, synchronisation that reports its stages comes to the same answer, and
  -- leaves the device, with the server and the files, just as synchronisation that does not report.
  pub sync_with_progress-Same : Same (sync_with_progress server none) (sync server)
  unfolding sync_with_progress load_indexes_of sync
  sync_with_progress-Same =
      bind-Same _ _
        (λ token.
          report-Same (record { stage = vaults; done = 0; total = 0 }) _ _
            (bind-Same _ _
              (λ freshness.
                bind-Same _ _
                  (λ local. then_done _ _ (
                    pull_each-Same server token (length (to_sync freshness local)) local freshness
                      0))
                  _ _ (on_device-Same (known_vaults server token freshness)))
              _ _ (on_device-Same (run_remote (server.check_freshness token)))))
        _ _ (on_device-Same access_token)
