-- ===== src/Server/Accounts/Exchanges.antt =====
-- An exchange of tokens and a setup of encryption serve their decisions.
use yandex_go_final_diploma.Prelude.{ap, ℕ, String, none, some, ◌≡◌, refl, Option, arith}
use yandex_go_final_diploma.Exec.{Result, continue, ok, err, ◌>>=◌, ◌>>◌}
use yandex_go_final_diploma.Server.Domain.{Bytes}
use yandex_go_final_diploma.Server.Errors.{auth, JwtErr, user_not_found, invalid_refresh_token}
use yandex_go_final_diploma.Server.External.{External}
use yandex_go_final_diploma.Server.Store.{Db, Query, UserRow, atomic, keep_on_error}
use yandex_go_final_diploma.Server.Store.Accounts
use yandex_go_final_diploma.Server.Store.Accounts.{find_login, with_login}
use yandex_go_final_diploma.Server.Store.Queries.{find_user}
use yandex_go_final_diploma.Server.Tx.{pool, q, alone}
use yandex_go_final_diploma.Server.Tx.Runs.{Serves, Serves-as}
use yandex_go_final_diploma.Server.Tx.Steps.{Serves-look}
use yandex_go_final_diploma.Server.Repo.{parse_uuid_or}
use yandex_go_final_diploma.Server.Repo.Users as Repo
use yandex_go_final_diploma.Server.Accounts.{
  Argon2id, RegisterParams, LoginParams, LoginResult, SetupEncryptionParams, if_missing, register,
  login, refreshing, refresh_token, setup_encryption,
}
use yandex_go_final_diploma.Server.Accounts.Spec
use yandex_go_final_diploma.Server.Accounts.Refines.{
  Serves-if_missing, Serves-refreshing, refreshing-reads, Serves-get_by_id, Serves-update_enc_kdf,
}
use yandex_go_final_diploma.Server.Accounts.Serves.{Serves-register}
use yandex_go_final_diploma.Server.Accounts.Admits.{
  admitting, admitting-admitted, Serves-admitting, Serves-login, told, row_of, get_by_id-told,
}
use yandex_go_final_diploma.Jwt.{Library, TokenIssuer, issue, verify_refresh}

module _ (x : External) (l : Library) (t : TokenIssuer) where
  -- The exchange behind the check of the token, on the database alone.
  abbrev exchange : String → ℕ → Query LoginResult
  exchange user_id now = do
    user ← if_missing (auth invalid_refresh_token) (Repo.get_by_id x alone user_id)
    admitting (record user { id = user_id }) (issue l t user_id now)

  exchange-row :
      (user_id : String) (now : ℕ) (o : Option UserRow) (d : Db)
      → continue
          (told x (auth invalid_refresh_token) o)
          (λ user. admitting (record user { id = user_id }) (issue l t user_id now))
          d
        ≡ elim o [
          | none ↦ (err (auth invalid_refresh_token), d)
          | some r ↦ (Spec.admitted user_id r (issue l t user_id now), d)
        ]
  exchange-row user_id now none d = refl
  exchange-row user_id now (some r) d = admitting-admitted x user_id r (issue l t user_id now) d

  exchange-same :
      (user_id : String) (now : ℕ) (d : Db)
      → exchange user_id now d ≡ elim (row_of x user_id d) [
        | none ↦ (err (auth invalid_refresh_token), d)
        | some r ↦ (Spec.admitted user_id r (issue l t user_id now), d)
      ]
  exchange-same user_id now d =
      rw (get_by_id-told x (auth invalid_refresh_token) user_id d)
        (exchange-row user_id now (row_of x user_id d) d)

  Serves-exchange :
      (user_id : String) (now : ℕ)
      → Serves
          (do
            user ← if_missing (auth invalid_refresh_token) (Repo.get_by_id x (q pool) user_id)
            admitting (record user { id = user_id }) (issue l t user_id now))
          (exchange user_id now)
  Serves-exchange user_id now =
      Serves-look _ _ _ _
        (λ d. ap (λ r. r.1) (get_by_id-told x (auth invalid_refresh_token) user_id d))
        (Serves-if_missing _ _ _ (Serves-get_by_id x user_id))
        (λ user. Serves-admitting (record user { id = user_id }) (issue l t user_id now))

  refresh-same :
      (token : String) (now : ℕ) (r : Result JwtErr String) (d : Db)
      → (refreshing r >>= λ user_id. exchange user_id now) d ≡ elim r [
        | err _ ↦ (err (auth invalid_refresh_token), d)
        | ok user_id ↦ elim (row_of x user_id d) [
          | none ↦ (err (auth invalid_refresh_token), d)
          | some r ↦ (Spec.admitted user_id r (issue l t user_id now), d)
        ]
      ]
  unfolding refreshing
  refresh-same token now (err e) d = refl
  refresh-same token now (ok user_id) d = exchange-same user_id now d

  pub Serves-refresh_token :
      (token : String) (now : ℕ)
      → Serves (refresh_token x l t pool token now) (Spec.refresh_token x l t token now)
  unfolding refresh_token
  Serves-refresh_token token now =
      Serves-as
        {plain = refreshing (verify_refresh l t token now) >>= λ user_id. exchange user_id now}
        (Serves-look _ _ _ _ (refreshing-reads (verify_refresh l t token now)) (Serves-refreshing _)
          (λ user_id. Serves-exchange user_id now))
        (λ d.
          unfold Spec.refresh_token row_of in
          rw (refresh-same token now (verify_refresh l t token now) d) (ground arith))

module _ (x : External) where
  abbrev plain_setup : SetupEncryptionParams → Query (Unit {0})
  plain_setup p = do
    if_missing (auth user_not_found) (Repo.get_by_id x alone p.user_id)
    Repo.update_enc_kdf x alone p.user_id p.enc_kdf_salt p.enc_kdf_params p.enc_master_key

  setup-same : (p : SetupEncryptionParams) (d : Db) → plain_setup p d ≡ Spec.setup_encryption x p d
  unfolding Spec.setup_encryption Repo.update_enc_kdf parse_uuid_or atomic keep_on_error
      Accounts.update_user_enc_kdf row_of find_user
  setup-same p d = rw (get_by_id-told x (auth user_not_found) p.user_id d) (ground arith)

  pub Serves-setup_encryption :
      (p : SetupEncryptionParams) → Serves (setup_encryption x pool p) (Spec.setup_encryption x p)
  unfolding setup_encryption
  Serves-setup_encryption p =
      Serves-as {plain = plain_setup p}
        (Serves-look _ _ _ _
          (λ d. ap (λ r. r.1) (get_by_id-told x (auth user_not_found) p.user_id d))
          (Serves-if_missing _ _ _ (Serves-get_by_id x p.user_id))
          (λ _. Serves-update_enc_kdf x p.user_id p.enc_kdf_salt p.enc_kdf_params p.enc_master_key))
        (setup-same p)

-- A registration, a login, an exchange of tokens and a setup of encryption, whatever the environment
-- does, each make the decision of the specification on the database, or report a fault of the
-- environment and have changed nothing; in a calm environment they make the decision.
pub accounts-Serve :
    (x : External) (h : Argon2id) (l : Library) (t : TokenIssuer) (p : RegisterParams)
    (salt : Bytes) (params : LoginParams) (token : String) (keys : SetupEncryptionParams) (now : ℕ)
    → Serves (register x h l t pool p salt now) (Spec.register x h l t p salt now)
      × Serves (login x h l t pool params now) (Spec.login x h l t params now)
      × Serves (refresh_token x l t pool token now) (Spec.refresh_token x l t token now)
      × Serves (setup_encryption x pool keys) (Spec.setup_encryption x keys)
accounts-Serve x h l t p salt params token keys now = (
  Serves-register x h l t p salt now,
  Serves-login x h l t params now,
  Serves-refresh_token x l t token now,
  Serves-setup_encryption x keys,
)
