-- ===== src/Server/Repo/Recovery.antt =====
-- infra/postgres/repo_recovery.go
use yandex_go_final_diploma.Prelude.{String}
use yandex_go_final_diploma.Exec.{Exec, ◌>>=◌}
use yandex_go_final_diploma.Server.Domain.{Bytes}
use yandex_go_final_diploma.Server.Errors.{Err, auth, user_not_found, recovery_code_gone}
use yandex_go_final_diploma.Server.External.{External}
use yandex_go_final_diploma.Server.Store.Accounts
use yandex_go_final_diploma.Server.Tx.{Runner, exec, query}
use yandex_go_final_diploma.Server.Tx.Runs.{hide_no_rows}
use yandex_go_final_diploma.Server.Repo.{parse_uuid_or}

module _ {S : Type 0} (x : External) (q : Runner S) where
  unfoldable pub store_code : String → String → Bytes → Exec S Err (Unit {0})
  store_code user_id code_id enc_master_key = do
    uid ← parse_uuid_or x user_id (auth user_not_found)
    q _ exec (Accounts.store_recovery_code uid code_id enc_master_key)

  unfoldable pub get_blob : String → String → Exec S Err Bytes
  get_blob user_id code_id = do
    uid ← parse_uuid_or x user_id (auth user_not_found)
    hide_no_rows recovery_code_gone (q _ query (Accounts.get_recovery_blob uid code_id))

  unfoldable pub mark_used : String → String → Exec S Err (Unit {0})
  mark_used user_id code_id = do
    uid ← parse_uuid_or x user_id (auth user_not_found)
    q _ exec (Accounts.mark_recovery_code_used uid code_id)

  unfoldable pub delete_all : String → Exec S Err (Unit {0})
  delete_all user_id = do
    uid ← parse_uuid_or x user_id (auth user_not_found)
    q _ exec (Accounts.delete_user_recovery_codes uid)
