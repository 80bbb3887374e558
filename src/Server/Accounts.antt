-- ===== src/Server/Accounts.antt =====
-- internal/server/usecase/auth: registration, login, the exchange of tokens and the setup of
-- encryption (register.go, login.go, refresh.go, setup_encryption.go, password_hash.go), with the two
-- methods of a second factor that are not implemented (enroll_2fa.go, verify_2fa.go).
pub mod Spec
pub mod Refines
pub mod Serves
pub mod Admits
pub mod Exchanges
pub mod History
pub mod Registered
pub mod Lasting
pub mod Keys
pub mod Issued
use yandex_go_final_diploma.Prelude.{ℕ, String, Bool, true, false, not, Option, none, some, [], ◌≡◌}
use yandex_go_final_diploma.Exec.{Exec, Result, ok, err, pure, raise, refuse_if, ◌>>=◌, ◌>>◌}
use yandex_go_final_diploma.Server.Domain.{Bytes, User}
use yandex_go_final_diploma.Server.Errors.{
  Err, auth, jwt, JwtErr, hash_failure, user_not_found, invalid_credentials, invalid_refresh_token,
  empty_login, empty_password, not_implemented,
}
use yandex_go_final_diploma.Server.External.{External}
use yandex_go_final_diploma.Server.Store.{World, Action, draw}
use yandex_go_final_diploma.Server.Tx.{Ctx, q, after_delay}
use yandex_go_final_diploma.Server.Repo.Users as Repo
use yandex_go_final_diploma.Server.Secrets.{is_empty, is_empty_text}
use yandex_go_final_diploma.Jwt.{Library, TokenIssuer, issue, verify_refresh}

-- argon2id: `CreateHash` with the parameters of the code and the salt it draws, and
-- `ComparePasswordAndHash`; `none` is an error.
pub record Argon2id : Type 0 where
  pub create_hash : Bytes → Bytes → Option String
  pub compare : Bytes → String → Option Bool

-- A password matches its hash.
pub record HashLaws (h : Argon2id) : Type 0 where
  pub own :
      (salt password : Bytes) (hash : String)
      → h.create_hash salt password ≡ some hash
      → h.compare password hash ≡ some true

pub record RegisterParams : Type 0 where
  pub login : String
  pub login_credential : Bytes

pub record RegisterResult : Type 0 where
  pub user_id : String
  pub access_token : String
  pub refresh_token : String

pub record SetupEncryptionParams : Type 0 where
  pub user_id : String
  pub enc_kdf_salt : Bytes
  pub enc_kdf_params : Bytes
  pub enc_master_key : Bytes

pub record LoginParams : Type 0 where
  pub login : String
  pub login_credential : Bytes

-- `Result`
pub record LoginResult : Type 0 where
  pub user_id : String
  pub access_token : String
  pub refresh_token : String
  pub enc_kdf_salt : Bytes
  pub enc_kdf_params : Bytes
  pub enc_master_key : Bytes

-- `acquireHashSlot`: a slot comes free, or the request is cancelled first.
unfoldable pub acquire_hash_slot : Action (Unit {0})
unfolding draw after_delay
acquire_hash_slot w = let (event, w') = draw w in after_delay (pure tt) event w'

-- What argon2id returned.
unfoldable pub hashed : {S A : Type 0} → Option A → Exec S Err A
hashed none = raise hash_failure
hashed (some a) = pure a

-- What the token issuer returned.
unfoldable pub issued : {S A : Type 0} → Result JwtErr A → Exec S Err A
issued (err e) = raise (jwt e)
issued (ok a) = pure a

unfoldable pub hash_password : Argon2id → Bytes → Bytes → Action String
hash_password h salt password = do acquire_hash_slot; hashed (h.create_hash salt password)

unfoldable pub compare_password : Argon2id → Bytes → String → Action Bool
compare_password h password hash = do acquire_hash_slot; hashed (h.compare password hash)

-- An error of the repository that `errors.Is` knows as a missing user is reported as `e`.
unfoldable pub missing_user_as : {A : Type 0} → Err → Result Err A → Result Err A
missing_user_as e (err (auth user_not_found)) = err e
missing_user_as e (err other) = err other
missing_user_as e (ok a) = ok a

unfoldable pub if_missing : {S A : Type 0} → Err → Exec S Err A → Exec S Err A
unfolding missing_user_as
if_missing e m s = let (r, s') = m s in (missing_user_as e r, s')

unfoldable pub login_result : User → String × String → LoginResult
login_result user (access, refresh) = record {
  user_id = user.id;
  access_token = access;
  refresh_token = refresh;
  enc_kdf_salt = user.enc_kdf_salt;
  enc_kdf_params = user.enc_kdf_params;
  enc_master_key = user.enc_master_key;
}

-- `now` is the time at which the tokens are issued.
module _ (x : External) (h : Argon2id) (l : Library) (t : TokenIssuer) where
  unfoldable pub register : Ctx → RegisterParams → Bytes → ℕ → Action RegisterResult
  register ctx p salt now = do
    refuse_if (is_empty_text p.login) (auth empty_login)
    refuse_if (is_empty p.login_credential) (auth empty_password)
    hash ← hash_password h salt p.login_credential
    user ← Repo.create x (q ctx) (record {
      id = "";
      login = p.login;
      auth_hash = hash;
      enc_kdf_salt = [];
      enc_kdf_params = [];
      enc_master_key = [];
    })
    (access, refresh) ← issued (issue l t user.id now)
    pure (record { user_id = user.id; access_token = access; refresh_token = refresh })

  unfoldable pub login : Ctx → LoginParams → ℕ → Action LoginResult
  login ctx p now = do
    refuse_if (is_empty_text p.login) (auth empty_login)
    refuse_if (is_empty p.login_credential) (auth empty_password)
    user ← if_missing (auth invalid_credentials) (Repo.get_by_login x (q ctx) p.login)
    match ← compare_password h p.login_credential user.auth_hash
    refuse_if (not match) (auth invalid_credentials)
    tokens ← issued (issue l t user.id now)
    pure (login_result user tokens)

-- A refresh token that does not pass for one is reported alike, whatever is wrong with it.
unfoldable pub refreshing : {S : Type 0} → Result JwtErr String → Exec S Err String
refreshing (err _) = raise (auth invalid_refresh_token)
refreshing (ok user_id) = pure user_id

module _ (x : External) (l : Library) (t : TokenIssuer) where
  unfoldable pub refresh_token : Ctx → String → ℕ → Action LoginResult
  refresh_token ctx token now = do
    user_id ← refreshing (verify_refresh l t token now)
    user ← if_missing (auth invalid_refresh_token) (Repo.get_by_id x (q ctx) user_id)
    tokens ← issued (issue l t user_id now)
    pure (login_result (record user { id = user_id }) tokens)

unfoldable pub setup_encryption : External → Ctx → SetupEncryptionParams → Action (Unit {0})
setup_encryption x ctx p = do
  if_missing (auth user_not_found) (Repo.get_by_id x (q ctx) p.user_id)
  Repo.update_enc_kdf x (q ctx) p.user_id p.enc_kdf_salt p.enc_kdf_params p.enc_master_key

-- The second factor is a stub.
unfoldable pub enroll_totp : String → Action String
enroll_totp user_id = raise (auth not_implemented)

unfoldable pub verify_totp : String → String → Action (Unit {0})
verify_totp user_id code = raise (auth not_implemented)
