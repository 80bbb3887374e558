-- ===== src/Rpc/GrpcClient/Recovery.antt =====
-- The calls of grpcclient/client.go for recovery codes.
use yandex_go_final_diploma.Prelude.{String, List, map}
use yandex_go_final_diploma.Exec.{Exec}
use yandex_go_final_diploma.Server.Domain.{Bytes}
use yandex_go_final_diploma.Client.Errors.{ClientErr}
use yandex_go_final_diploma.Rpc.Messages as Messages
use yandex_go_final_diploma.Rpc.Errors.{map_err}
use yandex_go_final_diploma.Rpc.Handlers.Recovery as Handlers
use yandex_go_final_diploma.Rpc.Network.{Remote}
use yandex_go_final_diploma.Rpc.GrpcClient.{Site, reading, invoke}

pub record RecoveryCodeEntry : Type 0 where
  pub code_id : String
  pub enc_master_key : Bytes

-- `pbCodes`
unfoldable pub pb_codes : List RecoveryCodeEntry → List Messages.RecoveryCodeEntry
pb_codes codes = map (λ c. record { code_id = c.code_id; enc_master_key = c.enc_master_key }) codes

module _ (site : Site) where
  unfoldable pub store_recovery_codes :
      String → List RecoveryCodeEntry → Exec Remote ClientErr (Unit {0})
  unfolding reading invoke pb_codes
  store_recovery_codes token codes =
      reading map_err (λ _. tt)
        (invoke site "/gophkeeper.v1.AuthService/StoreRecoveryCodes" token
          (Handlers.store_recovery_codes site.external (pb_codes codes)))

  unfoldable pub get_recovery_blob : String → String → Exec Remote ClientErr Bytes
  unfolding reading invoke
  get_recovery_blob token code_id =
      reading map_err (λ blob. blob)
        (invoke site "/gophkeeper.v1.AuthService/GetRecoveryBlob" token
          (Handlers.get_recovery_blob site.external code_id))

  unfoldable pub mark_recovery_code_used : String → String → Exec Remote ClientErr (Unit {0})
  unfolding reading invoke
  mark_recovery_code_used token code_id =
      reading map_err (λ _. tt)
        (invoke site "/gophkeeper.v1.AuthService/MarkRecoveryCodeUsed" token
          (Handlers.mark_recovery_code_used site.external code_id))
