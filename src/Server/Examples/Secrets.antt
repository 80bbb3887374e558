-- ===== src/Server/Examples/Secrets.antt =====
-- The scenarios on secrets at work, and their theorems at concrete inputs.
use yandex_go_final_diploma.Server.Secrets.{get_payload}
use yandex_go_final_diploma.Server.Secrets.Found.{Found}
use yandex_go_final_diploma.Server.Secrets.Reading.{payload_of, get_payload-Found}
use yandex_go_final_diploma.Prelude.{false}
use yandex_go_final_diploma.Server.Examples.Ids.{sample, sample-UuidLaws}
use yandex_go_final_diploma.Prelude.{◌≡◌, ◌≢◌, refl, [], ◌∷◌, find, update}
use yandex_go_final_diploma.Exec.{ok, err, refuse_if}
use yandex_go_final_diploma.Server.Errors.{conflict}
use yandex_go_final_diploma.Server.Store.{lost_connection, atomic, draw, keep_on_error, send, under}
use yandex_go_final_diploma.Server.Errors.{is_tx_retryable, is_conn_retryable}
use yandex_go_final_diploma.Server.Tx.{
  pool, do_tx, querier, retrying, ask, asked, read_rows, with_retry, attempts, retry, after_delay,
  body, close, finish, rollback, round,
}
use yandex_go_final_diploma.Server.Tx.Runs.{hide_no_rows, swap_no_rows}
use yandex_go_final_diploma.Server.Repo.{parse_uuid_or}
use yandex_go_final_diploma.Server.Repo.Secrets as Repo
use yandex_go_final_diploma.Server.Repo.Secrets.{to_secret}
use yandex_go_final_diploma.Server.Store.Queries
use yandex_go_final_diploma.Server.Store.Queries.{find_secret, find_vault, vault_of_user}
use yandex_go_final_diploma.Server.Secrets.{
  create_secret, update_secret, delete_secret, attach_blob, update_body, delete_body, check_current,
}
use yandex_go_final_diploma.Server.Secrets.History.{after_all, Grows}
use yandex_go_final_diploma.Server.Secrets.Spec
use yandex_go_final_diploma.Server.Secrets.Spec.{edited, removed}
use yandex_go_final_diploma.Server.Secrets.Refines.{changes-Serve, Serves-attach_blob}
use yandex_go_final_diploma.Server.Secrets.Locking.{
  Replaced, Conflicts, update_secret-Replaced, delete_secret-Replaced, update_secret-Conflicts,
}
use yandex_go_final_diploma.Server.Secrets.Growth.{after_all-Grows}
use yandex_go_final_diploma.Server.Secrets.Stale.{stale_edit-refused, stale_deletion-refused}
use yandex_go_final_diploma.Server.Secrets.Isolation.{Holds, Strangers, caller, after_all-Holds}
use yandex_go_final_diploma.Server.Tx.Runs.{Serves}
use yandex_go_final_diploma.Server.Examples.Data.{
  vault_row, secret_row, base, start, edit, removal, new, upload, calls,
}

-- The edit is accepted in the second round.
edit-accepted : (update_secret sample pool (edit 1) start).0 ≡ ok 2
unfolding update_secret update_body Repo.update_fields Queries.update_secret_fields refuse_if do_tx
    querier retrying ask asked read_rows with_retry attempts retry after_delay body close finish
    rollback round hide_no_rows swap_no_rows check_current parse_uuid_or is_tx_retryable
    is_conn_retryable atomic draw keep_on_error send under find update find_secret find_vault
    vault_of_user to_secret Repo.get_for_update Queries.get_secret_for_update
    Repo.bump_vault_version Queries.bump_vault_version
edit-accepted = refl

-- The edit of another version is told the row as it stands.
edit-conflicts :
    (update_secret sample pool (edit 7) start).0
    ≡ err (conflict (to_secret sample (secret_row 3 1)))
unfolding update_secret update_body Repo.update_fields Queries.update_secret_fields refuse_if do_tx
    querier retrying ask asked read_rows with_retry attempts retry after_delay body close finish
    rollback round hide_no_rows swap_no_rows check_current parse_uuid_or is_tx_retryable
    is_conn_retryable atomic draw keep_on_error send under find update find_secret find_vault
    vault_of_user to_secret Repo.get_for_update Queries.get_secret_for_update
    Repo.bump_vault_version Queries.bump_vault_version
edit-conflicts = refl

removal-accepted : (delete_secret sample pool removal start).0 ≡ ok 2
unfolding delete_secret delete_body Repo.soft_delete Queries.soft_delete_secret refuse_if do_tx
    querier retrying ask asked read_rows with_retry attempts retry after_delay body close finish
    rollback round hide_no_rows swap_no_rows check_current parse_uuid_or is_tx_retryable
    is_conn_retryable atomic draw keep_on_error send under find update find_secret find_vault
    vault_of_user to_secret Repo.get_for_update Queries.get_secret_for_update
    Repo.bump_vault_version Queries.bump_vault_version
removal-accepted = refl

calls-Strangers : Strangers sample 0 calls
unfolding Strangers caller
calls-Strangers = (λ h. cc, (λ h. cc, tt))

base-Holds : Holds 3 (secret_row 3 1) (vault_row 1 0) base
unfolding find_secret find_vault find
base-Holds = (refl, refl)

stale_edit-refused_example :
    (update_secret sample pool (edit 1) (record {
      store = after_all sample calls (update_secret sample pool (edit 1) start).1.store;
      events = lost_connection ∷ [];
    })).0
    ≢ ok 2
stale_edit-refused_example =
    stale_edit-refused sample sample-UuidLaws (edit 1) start 2 calls (edit 1) (lost_connection ∷ [])
      2 edit-accepted refl refl

stale_deletion-refused_example :
    (delete_secret sample pool removal (record {
      store = after_all sample calls (update_secret sample pool (edit 1) start).1.store;
      events = [];
    })).0
    ≢ ok 2
stale_deletion-refused_example =
    stale_deletion-refused sample sample-UuidLaws (edit 1) start 2 calls removal [] 2 edit-accepted
      refl refl

after_all-Grows_example : Grows base (after_all sample calls base)
after_all-Grows_example = after_all-Grows sample sample-UuidLaws calls base

after_all-Holds_example : Holds 3 (secret_row 3 1) (vault_row 1 0) (after_all sample calls base)
after_all-Holds_example =
    after_all-Holds sample sample-UuidLaws 3 (secret_row 3 1) (vault_row 1 0) calls base
      calls-Strangers base-Holds

changes-Serve_example :
    Serves (create_secret sample pool new) (Spec.create_secret sample new)
    × Serves (update_secret sample pool (edit 1)) (Spec.update_secret sample (edit 1))
    × Serves (delete_secret sample pool removal) (Spec.delete_secret sample removal)
changes-Serve_example = changes-Serve sample sample-UuidLaws new (edit 1) removal

Serves-attach_blob_example :
    Serves (attach_blob sample pool upload) (Spec.attach_blob sample upload)
Serves-attach_blob_example = Serves-attach_blob sample sample-UuidLaws upload

update_secret-Replaced_example :
    Replaced sample
      (sample.uuid_text 3)
      (sample.uuid_text 0)
      1
      (edited (edit 1))
      2
      base
      (update_secret sample pool (edit 1) start).1.store
update_secret-Replaced_example =
    update_secret-Replaced sample sample-UuidLaws (edit 1) start 2 edit-accepted

delete_secret-Replaced_example :
    Replaced sample
      (sample.uuid_text 3)
      (sample.uuid_text 0)
      1
      removed
      2
      base
      (delete_secret sample pool removal start).1.store
delete_secret-Replaced_example =
    delete_secret-Replaced sample sample-UuidLaws removal start 2 removal-accepted

update_secret-Conflicts_example :
    Conflicts sample
      (sample.uuid_text 3)
      (sample.uuid_text 0)
      7
      (to_secret sample (secret_row 3 1))
      base
      (update_secret sample pool (edit 7) start).1.store
update_secret-Conflicts_example =
    update_secret-Conflicts sample sample-UuidLaws (edit 7) start
      (to_secret sample (secret_row 3 1)) edit-conflicts

payload-read :
    (get_payload sample pool (sample.uuid_text 0) (sample.uuid_text 3) start).0
    ≡ ok (payload_of sample (secret_row 3 1))
unfolding get_payload Repo.get_payload Queries.get_secret_payload Repo.payload_secret
    Repo.update_fields Queries.update_secret_fields refuse_if do_tx querier retrying ask asked
    read_rows with_retry attempts retry after_delay body close finish rollback round hide_no_rows
    swap_no_rows check_current parse_uuid_or is_tx_retryable is_conn_retryable atomic draw
    keep_on_error send under find update find_secret find_vault vault_of_user to_secret
    Repo.get_for_update Queries.get_secret_for_update Repo.bump_vault_version
    Queries.bump_vault_version
payload-read = refl

get_payload-Found_example :
    (f : Found sample (sample.uuid_text 3) (sample.uuid_text 0) base) × (f.row.deleted ≡ false)
    × (payload_of sample (secret_row 3 1) ≡ payload_of sample f.row)
get_payload-Found_example =
    get_payload-Found sample (sample.uuid_text 0) (sample.uuid_text 3) start
      (payload_of sample (secret_row 3 1)) payload-read
