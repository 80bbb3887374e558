-- ===== src/Server/Auth.antt =====
-- internal/server/usecase/auth/recovery.go: recovery codes.
pub mod OneTime
use yandex_go_final_diploma.Prelude.{String, List, [], ◌∷◌}
use yandex_go_final_diploma.Exec.{Exec, pure, refuse_if, ◌>>=◌, ◌>>◌}
use yandex_go_final_diploma.Server.Domain.{Bytes}
use yandex_go_final_diploma.Server.Errors.{Err, auth, AuthErr}
use yandex_go_final_diploma.Server.External.{External}
use yandex_go_final_diploma.Server.Store.{Action}
use yandex_go_final_diploma.Server.Tx.{Ctx, Runner, q}
use yandex_go_final_diploma.Server.Repo.Recovery as Repo
use yandex_go_final_diploma.Server.Secrets.{is_empty_text}

pub record RecoveryCodeEntry : Type 0 where
  pub code_id : String
  pub enc_master_key : Bytes

-- `for _, c := range codes`
unfoldable pub store_each :
    {S : Type 0} → External → Runner S → String → List RecoveryCodeEntry → Exec S Err (Unit {0})
store_each x q user_id [] = pure tt
store_each x q user_id (c ∷ codes) =
    Repo.store_code x q user_id c.code_id c.enc_master_key >> store_each x q user_id codes

module _ (x : External) where
  unfoldable pub store_recovery_codes : Ctx → String → List RecoveryCodeEntry → Action (Unit {0})
  unfolding store_each
  store_recovery_codes ctx user_id codes = do
    refuse_if (is_empty_text user_id) (auth AuthErr.empty_user_id)
    Repo.delete_all x (q ctx) user_id
    store_each x (q ctx) user_id codes

  unfoldable pub get_recovery_blob : Ctx → String → String → Action Bytes
  get_recovery_blob ctx user_id code_id = do
    refuse_if (is_empty_text user_id) (auth AuthErr.empty_user_id)
    Repo.get_blob x (q ctx) user_id code_id

  unfoldable pub mark_recovery_code_used : Ctx → String → String → Action (Unit {0})
  mark_recovery_code_used ctx user_id code_id = do
    refuse_if (is_empty_text user_id) (auth AuthErr.empty_user_id)
    Repo.mark_used x (q ctx) user_id code_id
