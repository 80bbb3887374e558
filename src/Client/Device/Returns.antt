-- ===== src/Client/Device/Returns.antt =====
-- What is known of the device where a statement or a call has returned a value.
use yandex_go_final_diploma.Prelude.{Bool, true, false, List, [], ◌∷◌, ◌≡◌, refl, arith}
use yandex_go_final_diploma.Exec.{Exec, ok}
use yandex_go_final_diploma.Client.Errors.{ClientErr}
use yandex_go_final_diploma.Client.Local.{Statement}
use yandex_go_final_diploma.Client.Device.{Device, run_local, run_remote}

module _ {S A : Type 0} (st : Statement A) where
  run_local-ok_on :
      (d : Device S) (faults : List Bool) (a : A)
      → (run_local st (record d { faults = faults })).0 ≡ ok a
      → ((st d.local).0 ≡ ok a)
        × ((run_local st (record d { faults = faults })).1.local ≡ (st d.local).1)
  unfolding run_local
  run_local-ok_on d [] a h = (h, refl)
  run_local-ok_on d (true ∷ rest) a h = ground (arith, h)
  run_local-ok_on d (false ∷ rest) a h = (h, refl)

  pub run_local-ok :
      (d : Device S) (a : A)
      → (run_local st d).0 ≡ ok a
      → ((st d.local).0 ≡ ok a) × ((run_local st d).1.local ≡ (st d.local).1)
  run_local-ok d a h = run_local-ok_on d d.faults a h

pub run_remote-same :
    {S A : Type 0} (call : Exec S ClientErr A) (d : Device S)
    → (run_remote call d).1.local ≡ d.local
unfolding run_remote
run_remote-same call d = refl
