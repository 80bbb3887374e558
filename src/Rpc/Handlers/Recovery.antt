-- ===== src/Rpc/Handlers/Recovery.antt =====
-- grpcserver/recovery_handler.go
use yandex_go_final_diploma.Prelude.{String, List, map}
use yandex_go_final_diploma.Server.Domain.{Bytes}
use yandex_go_final_diploma.Server.Errors.{auth, user_not_found}
use yandex_go_final_diploma.Server.External.{External}
use yandex_go_final_diploma.Server.Tx.{pool}
use yandex_go_final_diploma.Server.Auth as Auth
use yandex_go_final_diploma.Rpc.Messages.{RecoveryCodeEntry}
use yandex_go_final_diploma.Rpc.Errors.{map_auth_err}
use yandex_go_final_diploma.Rpc.Handlers.{Handler, with_user, respond}

-- The loop over `req.GetCodes()`.
unfoldable pub entries_of : List RecoveryCodeEntry → List Auth.RecoveryCodeEntry
entries_of codes =
    map (λ c. record { code_id = c.code_id; enc_master_key = c.enc_master_key }) codes

module _ (x : External) where
  unfoldable pub store_recovery_codes : List RecoveryCodeEntry → Handler (Unit {0})
  unfolding entries_of respond map_auth_err
  store_recovery_codes codes = with_user (map_auth_err (auth user_not_found)) λ user_id.
      respond map_auth_err (λ _. tt) (Auth.store_recovery_codes x pool user_id (entries_of codes))

  unfoldable pub get_recovery_blob : String → Handler Bytes
  unfolding respond map_auth_err
  get_recovery_blob code_id =
      with_user (map_auth_err (auth user_not_found)) λ user_id.
        respond map_auth_err (λ blob. blob) (Auth.get_recovery_blob x pool user_id code_id)

  unfoldable pub mark_recovery_code_used : String → Handler (Unit {0})
  unfolding respond map_auth_err
  mark_recovery_code_used code_id = with_user (map_auth_err (auth user_not_found)) λ user_id.
      respond map_auth_err (λ _. tt) (Auth.mark_recovery_code_used x pool user_id code_id)
