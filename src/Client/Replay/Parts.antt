-- ===== src/Client/Replay/Parts.antt =====
-- internal/client/usecase/sync/outbox_replay.go: the parts of a replay under a relation between devices.
use yandex_go_final_diploma.Prelude.{Bool, true, false, Option, none, some}
use yandex_go_final_diploma.Exec.{Result, ok, err, pure, ◌>>◌}
use yandex_go_final_diploma.Exec.Keeps.{
  Keeps, Preorder, pure-Keeps, raise-Keeps, bind-Keeps, if-Keeps,
}
use yandex_go_final_diploma.Client.Errors.{ClientErr, conflict, is_offline}
use yandex_go_final_diploma.Client.Local.{Statement, OutboxEntry, conflicted}
use yandex_go_final_diploma.Client.Local.Outbox as Outbox
use yandex_go_final_diploma.Client.Device.{Device, Scenario, run_local}
use yandex_go_final_diploma.Client.Replay.{
  decoded, attempt, handled, handle_replay_conflict, upload_failed,
}

module _ {S : Type 0} {R : Device S → Device S → Type 0} (p : Preorder R) where
  pub decoded-Keeps : {A : Type 0} (o : Option A) → Keeps R (decoded o)
  unfolding decoded
  decoded-Keeps none = raise-Keeps p _
  decoded-Keeps (some a) = pure-Keeps p a

  pub attempt-Keeps : {A : Type 0} (m : Scenario S A) → Keeps R m → Keeps R (attempt m)
  unfolding attempt
  attempt-Keeps m keeps = record { at = keeps.at }

  pub conflict-Keeps :
      (e : OutboxEntry)
      → Keeps R (run_local (Outbox.set_outbox_status e.id conflicted))
      → (why : ClientErr) → Keeps R (handle_replay_conflict e why)
  unfolding handle_replay_conflict
  conflict-Keeps e marking (conflict _) = bind-Keeps p _ _ marking λ _. pure-Keeps p false
  conflict-Keeps e marking why = raise-Keeps p why

  pub upload_failed-Keeps : (why : ClientErr) → Keeps R (upload_failed why)
  unfolding upload_failed
  upload_failed-Keeps why = if-Keeps (is_offline why) _ _ (pure-Keeps p false) (raise-Keeps p why)

  pub handled-Keeps :
      {A : Type 0} (handle : ClientErr → Scenario S Bool) (rest : Scenario S Bool)
      → ((why : ClientErr) → Keeps R (handle why))
      → Keeps R rest
      → (r : Result ClientErr A) → Keeps R (handled handle rest r)
  unfolding handled
  handled-Keeps handle rest hs rs (ok _) = rs
  handled-Keeps handle rest hs rs (err why) = hs why

  -- A statement that ends a replay well.
  pub then_true :
      (st : Statement (Unit {0})) → Keeps R (run_local st) → Keeps R (run_local st >> pure true)
  then_true st keeps = bind-Keeps p _ _ keeps λ _. pure-Keeps p true
