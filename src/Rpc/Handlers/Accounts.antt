-- ===== src/Rpc/Handlers/Accounts.antt =====
-- The handlers of accounts in grpcserver/server.go, with mapper/auth.go.
use yandex_go_final_diploma.Prelude.{ℕ, String}
use yandex_go_final_diploma.Server.Domain.{Bytes}
use yandex_go_final_diploma.Server.Errors.{auth, user_not_found}
use yandex_go_final_diploma.Server.External.{External}
use yandex_go_final_diploma.Server.Tx.{pool}
use yandex_go_final_diploma.Server.Accounts as Accounts
use yandex_go_final_diploma.Server.Accounts.{Argon2id}
use yandex_go_final_diploma.Jwt.{Library, TokenIssuer}
use yandex_go_final_diploma.Rpc.Messages.{
  RegisterRequest, RegisterResponse, SetupEncryptionRequest, LoginRequest, LoginResponse,
}
use yandex_go_final_diploma.Rpc.Errors.{map_auth_err}
use yandex_go_final_diploma.Rpc.Handlers.{Handler, with_user, respond}

unfoldable pub register_params : RegisterRequest → Accounts.RegisterParams
register_params req = record { login = req.login; login_credential = req.login_credential }

unfoldable pub register_response : Accounts.RegisterResult → RegisterResponse
register_response res = record {
  access_token = res.access_token;
  refresh_token = res.refresh_token;
  user_id = res.user_id;
}

unfoldable pub setup_encryption_params :
    String → SetupEncryptionRequest → Accounts.SetupEncryptionParams
setup_encryption_params user_id req = record {
  user_id = user_id;
  enc_kdf_salt = req.enc_kdf_salt;
  enc_kdf_params = req.enc_kdf_params;
  enc_master_key = req.enc_master_key;
}

unfoldable pub login_params : LoginRequest → Accounts.LoginParams
login_params req = record { login = req.login; login_credential = req.login_credential }

-- `LoginResponse`, and `RefreshTokenResponse`, which has the same fields.
unfoldable pub login_response : Accounts.LoginResult → LoginResponse
login_response res = record {
  access_token = res.access_token;
  refresh_token = res.refresh_token;
  enc_kdf_salt = res.enc_kdf_salt;
  enc_kdf_params = res.enc_kdf_params;
  user_id = res.user_id;
  enc_master_key = res.enc_master_key;
}

module _ (x : External) (h : Argon2id) (l : Library) (t : TokenIssuer) where
  unfoldable pub register : RegisterRequest → Bytes → ℕ → Handler RegisterResponse
  unfolding register_params register_response respond map_auth_err
  register req salt now _ =
      respond map_auth_err register_response
        (Accounts.register x h l t pool (register_params req) salt now)

  unfoldable pub login : LoginRequest → ℕ → Handler LoginResponse
  unfolding login_params login_response respond map_auth_err
  login req now _ =
      respond map_auth_err login_response (Accounts.login x h l t pool (login_params req) now)

module _ (x : External) where
  unfoldable pub refresh_token : Library → TokenIssuer → String → ℕ → Handler LoginResponse
  unfolding login_response respond map_auth_err
  refresh_token l t token now _ =
      respond map_auth_err login_response (Accounts.refresh_token x l t pool token now)

  unfoldable pub setup_encryption : SetupEncryptionRequest → Handler (Unit {0})
  unfolding setup_encryption_params respond map_auth_err
  setup_encryption req = with_user (map_auth_err (auth user_not_found)) λ user_id.
      respond map_auth_err (λ _. tt)
        (Accounts.setup_encryption x pool (setup_encryption_params user_id req))
