-- ===== src/Rpc/GrpcClient/Accounts.antt =====
-- The calls of grpcclient/client.go for accounts.
use yandex_go_final_diploma.Prelude.{ℕ, String, none}
use yandex_go_final_diploma.Exec.{Exec}
use yandex_go_final_diploma.Jwt
use yandex_go_final_diploma.Server.Domain.{Bytes}
use yandex_go_final_diploma.Server.Accounts.{Argon2id}
use yandex_go_final_diploma.Server.Store.{World}
use yandex_go_final_diploma.Client.Errors.{ClientErr}
use yandex_go_final_diploma.Rpc.{Status}
use yandex_go_final_diploma.Rpc.Messages.{RegisterResponse, LoginResponse}
use yandex_go_final_diploma.Rpc.Errors.{map_err}
use yandex_go_final_diploma.Rpc.Auth.{intercept}
use yandex_go_final_diploma.Rpc.Handlers.{Handler}
use yandex_go_final_diploma.Rpc.Handlers.Accounts as Handlers
use yandex_go_final_diploma.Rpc.Network.{Remote, transport}
use yandex_go_final_diploma.Rpc.GrpcClient.{Site, reading, invoke}

pub record Tokens : Type 0 where
  pub access_token : String
  pub refresh_token : String
  pub user_id : String

-- `LoginResult`, which embeds the tokens.
pub record LoginResult : Type 0 where
  pub tokens : Tokens
  pub enc_kdf_salt : Bytes
  pub enc_kdf_params : Bytes
  pub enc_master_key : Bytes

unfoldable pub tokens_of : RegisterResponse → Tokens
tokens_of resp = record {
  access_token = resp.access_token;
  refresh_token = resp.refresh_token;
  user_id = resp.user_id;
}

unfoldable pub login_result_of : LoginResponse → LoginResult
login_result_of resp = record {
  tokens = record {
    access_token = resp.access_token;
    refresh_token = resp.refresh_token;
    user_id = resp.user_id;
  };
  enc_kdf_salt = resp.enc_kdf_salt;
  enc_kdf_params = resp.enc_kdf_params;
  enc_master_key = resp.enc_master_key;
}

module _ (site : Site) where
  -- The interceptor, called without `withBearer`, and the handler behind it, which reads the clock.
  unfoldable pub served_bare : {A : Type 0} → String → (ℕ → Handler A) → ℕ → Exec World Status A
  unfolding intercept
  served_bare method handler clock =
      intercept (λ t. Jwt.verify site.tokens site.issuer t clock) method none (handler clock)

  unfoldable pub invoke_bare : {A : Type 0} → String → (ℕ → Handler A) → Exec Remote Status A
  unfolding served_bare transport
  invoke_bare method handler = transport site.external (served_bare method handler)

  -- `salt` is what the server draws for the hash.
  unfoldable pub register : Argon2id → Bytes → String → Bytes → Exec Remote ClientErr Tokens
  unfolding reading invoke_bare tokens_of
  register h salt login login_credential = reading map_err tokens_of (
      invoke_bare "/gophkeeper.v1.AuthService/Register" (
        Handlers.register site.external h site.tokens site.issuer
          (record { login = login; login_credential = login_credential }) salt))

  unfoldable pub login : Argon2id → String → Bytes → Exec Remote ClientErr LoginResult
  unfolding reading invoke_bare login_result_of
  login h name login_credential = reading map_err login_result_of (
      invoke_bare "/gophkeeper.v1.AuthService/Login" (
        Handlers.login site.external h site.tokens site.issuer
          (record { login = name; login_credential = login_credential })))

  unfoldable pub refresh_token : String → Exec Remote ClientErr LoginResult
  unfolding reading invoke_bare login_result_of
  refresh_token token = reading map_err login_result_of (
      invoke_bare "/gophkeeper.v1.AuthService/RefreshToken"
        (Handlers.refresh_token site.external site.tokens site.issuer token))

  unfoldable pub setup_encryption :
      String → Bytes → Bytes → Bytes → Exec Remote ClientErr (Unit {0})
  unfolding reading invoke
  setup_encryption token enc_kdf_salt enc_kdf_params enc_master_key =
      reading map_err (λ _. tt)
        (invoke site "/gophkeeper.v1.AuthService/SetupEncryption" token (
          Handlers.setup_encryption site.external (record {
            enc_kdf_salt = enc_kdf_salt;
            enc_kdf_params = enc_kdf_params;
            enc_master_key = enc_master_key;
          })))
