-- ===== src/Server/Examples/Auth.antt =====
-- A recovery code at work.
use yandex_go_final_diploma.Prelude.{◌≡◌, ◌≢◌, refl, false, [], ◌∷◌, find, update}
use yandex_go_final_diploma.Exec.{ok, refuse_if}
use yandex_go_final_diploma.Server.Errors.{is_conn_retryable}
use yandex_go_final_diploma.Server.Store.{
  World, lost_connection, atomic, draw, keep_on_error, send, under,
}
use yandex_go_final_diploma.Server.Store.Accounts
use yandex_go_final_diploma.Server.Store.Accounts.{find_code}
use yandex_go_final_diploma.Server.Tx.{
  pool, querier, retrying, ask, asked, read_rows, with_retry, attempts, retry, after_delay,
}
use yandex_go_final_diploma.Server.Tx.Runs.{hide_no_rows, swap_no_rows}
use yandex_go_final_diploma.Server.Repo.{parse_uuid_or}
use yandex_go_final_diploma.Server.Repo.Recovery as Repo
use yandex_go_final_diploma.Server.Auth.{get_recovery_blob, mark_recovery_code_used}
use yandex_go_final_diploma.Server.Auth.OneTime.{mark-refused}
use yandex_go_final_diploma.Server.Examples.Ids.{sample}
use yandex_go_final_diploma.Server.Examples.Data.{base}

abbrev coded : World
coded = record {
  store = record base {
    recovery_codes =
        record { user_id = 0; code_id = "c1"; enc_master_key = 9 ∷ []; used = false }
        ∷ record { user_id = 0; code_id = "c2"; enc_master_key = 8 ∷ []; used = false }
        ∷ [];
  };
  events = lost_connection ∷ [];
}

before_mark : (get_recovery_blob sample pool (sample.uuid_text 0) "c2" coded).0 ≡ ok (8 ∷ [])
unfolding get_recovery_blob Repo.get_blob Accounts.get_recovery_blob find_code refuse_if querier
    retrying ask asked read_rows with_retry attempts retry after_delay hide_no_rows swap_no_rows
    parse_uuid_or is_conn_retryable atomic draw keep_on_error send under find update
before_mark = refl

marked : (mark_recovery_code_used sample pool (sample.uuid_text 0) "c2" coded).0 ≡ ok tt
unfolding mark_recovery_code_used Repo.mark_used Accounts.mark_recovery_code_used refuse_if querier
    retrying ask asked read_rows with_retry attempts retry after_delay hide_no_rows swap_no_rows
    parse_uuid_or is_conn_retryable atomic draw keep_on_error send under find update
marked = refl

mark-refused_example :
    (get_recovery_blob sample pool (sample.uuid_text 0) "c2" (record {
      store = (mark_recovery_code_used sample pool (sample.uuid_text 0) "c2" coded).1.store;
      events = [];
    })).0
    ≢ ok (8 ∷ [])
mark-refused_example = mark-refused sample (sample.uuid_text 0) "c2" coded [] (8 ∷ []) marked
