-- ===== src/Server/Tx/Serves.antt =====
-- Rules for code with no transaction that sends one statement on the pool: what stands around the
-- statement does not wait for the environment.
use yandex_go_final_diploma.Exec.{Result, ok, err, pure, raise, continue, ◌>>=◌}
use yandex_go_final_diploma.Server.Errors.{Err}
use yandex_go_final_diploma.Prelude.{◌≡◌, refl}
use yandex_go_final_diploma.Server.Store.{Db, World, Action, Query}
use yandex_go_final_diploma.Server.Tx.Refines.{Refined}
use yandex_go_final_diploma.Server.Tx.Calm.{bind-Calm, pure-Calm}
use yandex_go_final_diploma.Server.Tx.Steps.{Serves-told}
use yandex_go_final_diploma.Server.Tx.Runs.{Serves, hide_no_rows, swap_no_rows, swap_no_rows-fault}

module _ {A : Type 0} where
  pub Serves-raise : (e : Err) → Serves {A = A} (raise e) (raise e)
  Serves-raise e = record {
    refines = record { at = λ w. Refined.ran refl refl };
    calm = record { at = λ d. refl };
  }

  pub Serves-hide_no_rows :
      (e : Err) (m : Action A) (q : Query A)
      → Serves m q
      → Serves (hide_no_rows e m) (hide_no_rows e q)
  unfolding hide_no_rows
  Serves-hide_no_rows e m q h = Serves-told (swap_no_rows e) m q (swap_no_rows-fault e) h

module _ {A B : Type 0} where
  map_same :
      (f : A → B) (d : Db) (s : Result Err A) (d' : Db) (w : World)
      → w.store ≡ d'
      → Refined d (continue s (λ a. pure (f a)) d') (continue s (λ a. pure (f a)) w)
  map_same f d (ok a) d' w k = Refined.ran refl k
  map_same f d (err e) d' w k = Refined.ran refl k

  map-Refined :
      (f : A → B) (d : Db) (spec : Result Err A × Db) (r : Result Err A × World)
      → Refined d spec r
      → Refined d (continue spec.0 (λ a. pure (f a)) spec.1) (continue r.0 (λ a. pure (f a)) r.1)
  map-Refined f d spec r (Refined.faulted e g p k) = rw p (Refined.faulted e g refl k)
  map-Refined f d spec r (Refined.ran p k) = rw p (map_same f d spec.0 spec.1 r.1 k)

  -- The value of the statement is turned into another.
  pub Serves-map :
      (f : A → B) (m : Action A) (q : Query A)
      → Serves m q
      → Serves (m >>= λ a. pure (f a)) (q >>= λ a. pure (f a))
  Serves-map f m q h = record {
    refines = record { at = λ w. map-Refined f w.store (q w.store) (m w) (h.refines.at w) };
    calm = bind-Calm m q (λ a. pure (f a)) (λ a. pure (f a)) h.calm (λ a. pure-Calm (f a));
  }
