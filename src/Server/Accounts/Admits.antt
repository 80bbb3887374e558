-- ===== src/Server/Accounts/Admits.antt =====
-- A login serves its decision.
use yandex_go_final_diploma.Prelude.{
  ap, ℕ, String, true, false, not, none, some, ◌≡◌, refl, Option, Bool, arith,
}
use yandex_go_final_diploma.Exec.{Exec, Result, continue, ok, err, pure, refuse_if, ◌>>=◌, ◌>>◌}
use yandex_go_final_diploma.Server.Domain.{Bytes, User}
use yandex_go_final_diploma.Server.Errors.{
  Err, auth, jwt, JwtErr, hash_failure, invalid_credentials, empty_login, empty_password,
}
use yandex_go_final_diploma.Server.External.{External}
use yandex_go_final_diploma.Server.Store.{Db, Query, UserRow, atomic, keep_on_error}
use yandex_go_final_diploma.Server.Store.Accounts
use yandex_go_final_diploma.Server.Store.Accounts.{find_login, with_login}
use yandex_go_final_diploma.Server.Store.Queries.{find_user}
use yandex_go_final_diploma.Server.Tx.{pool, alone}
use yandex_go_final_diploma.Server.Tx.Runs.{
  Serves, Serves-guard, Serves-as, hide_no_rows, swap_no_rows,
}
use yandex_go_final_diploma.Server.Tx.Serves.{Serves-raise}
use yandex_go_final_diploma.Server.Tx.Steps.{Serves-pure, Serves-look, Serves-wait}
use yandex_go_final_diploma.Server.Repo.{parse_uuid_or}
use yandex_go_final_diploma.Server.Repo.Users as Repo
use yandex_go_final_diploma.Server.Secrets.{is_empty, is_empty_text}
use yandex_go_final_diploma.Server.Accounts.{
  Argon2id, LoginParams, LoginResult, acquire_hash_slot, hashed, issued, compare_password,
  missing_user_as, if_missing, login_result, login,
}
use yandex_go_final_diploma.Server.Accounts.Spec
use yandex_go_final_diploma.Server.Accounts.Refines.{
  Serves-hashed, hashed-reads, Serves-if_missing, Serves-get_by_login,
}
use yandex_go_final_diploma.Server.Accounts.Serves.{guarded}
use yandex_go_final_diploma.Jwt.{Library, TokenIssuer, issue}

-- What stands behind the last statement.
abbrev pub admitting :
    {S : Type 0} → User → Result JwtErr (String × String) → Exec S Err LoginResult
admitting user r = do tokens ← issued r; pure (login_result user tokens)

pub admitting-admitted :
    {S : Type 0} (x : External) (user_id : String) (row : UserRow)
    (r : Result JwtErr (String × String)) (s : S)
    → admitting (record (Repo.map_user x row) { id = user_id }) r s
      ≡ (Spec.admitted user_id row r, s)
unfolding issued Spec.admitted login_result Repo.map_user
admitting-admitted x user_id row (err e) s = refl
admitting-admitted x user_id row (ok tokens) s = refl

pub Serves-admitting :
    (user : User) (r : Result JwtErr (String × String))
    → Serves (admitting user r) (admitting user r)
unfolding issued
Serves-admitting user (err e) = Serves-raise (jwt e)
Serves-admitting user (ok tokens) = Serves-pure (login_result user tokens)

-- What a lookup returns, with the error that stands for a missing user.
abbrev pub told : External → Err → Option UserRow → Result Err User
told x e o = elim o [ none ↦ err e | some r ↦ ok (Repo.map_user x r) ]

-- The row behind an id.
unfoldable pub row_of : External → String → Db → Option UserRow
unfolding find_user
row_of x id d = elim (x.parse_uuid id) [ none ↦ none | some uid ↦ find_user uid d ]

module _ (x : External) (e : Err) where
  get_by_login-told :
      (login : String) (d : Db)
      → if_missing e (Repo.get_by_login x alone login) d ≡ (told x e (find_login x login d), d)
  unfolding if_missing missing_user_as Repo.get_by_login hide_no_rows swap_no_rows atomic
      keep_on_error Accounts.get_user_by_login find_login
  get_by_login-told login d = ground arith

  pub get_by_id-told :
      (id : String) (d : Db)
      → if_missing e (Repo.get_by_id x alone id) d ≡ (told x e (row_of x id d), d)
  unfolding if_missing missing_user_as Repo.get_by_id hide_no_rows swap_no_rows atomic keep_on_error
      Accounts.get_user_by_id find_user row_of parse_uuid_or
  get_by_id-told id d = ground arith

module _ (x : External) (h : Argon2id) (l : Library) (t : TokenIssuer) where
  abbrev checking : Bytes → ℕ → User → Query LoginResult
  checking password now user = do
    match ← hashed (h.compare password user.auth_hash)
    refuse_if (not match) (auth invalid_credentials)
    admitting user (issue l t user.id now)

  -- A login on the database alone.
  abbrev plain_login : LoginParams → ℕ → Query LoginResult
  plain_login p now = do
    refuse_if (is_empty_text p.login) (auth empty_login)
    refuse_if (is_empty p.login_credential) (auth empty_password)
    user ← if_missing (auth invalid_credentials) (Repo.get_by_login x alone p.login)
    checking p.login_credential now user

  checking-same :
      (password : Bytes) (r : UserRow) (now : ℕ) (d : Db)
      → checking password now (Repo.map_user x r) d ≡ (Spec.check x h l t password r now, d)
  unfolding hashed refuse_if Spec.check Repo.map_user
  checking-same password r now d = go (h.compare password r.auth_hash)
    where
      tokens : Result JwtErr (String × String)
      tokens = issue l t (x.uuid_text r.id) now

      go :
          (o : Option Bool)
          → (hashed o >>= λ match.
                refuse_if (not match) (auth invalid_credentials)
                >> admitting (Repo.map_user x r) tokens)
              d
            ≡ (
              elim o [
                | none ↦ err hash_failure
                | some false ↦ err (auth invalid_credentials)
                | some true ↦ Spec.admitted (x.uuid_text r.id) r tokens
              ],
              d,
            )
      go none = refl
      go (some false) = refl
      go (some true) = admitting-admitted x (x.uuid_text r.id) r tokens d

  looked_up :
      (password : Bytes) (now : ℕ) (o : Option UserRow) (d : Db)
      → continue (told x (auth invalid_credentials) o) (checking password now) d ≡ elim o [
        | none ↦ (err (auth invalid_credentials), d)
        | some r ↦ (Spec.check x h l t password r now, d)
      ]
  looked_up password now none d = refl
  looked_up password now (some r) d = checking-same password r now d

  found-same :
      (login : String) (password : Bytes) (now : ℕ) (d : Db)
      → (if_missing (auth invalid_credentials) (Repo.get_by_login x alone login)
            >>= checking password now)
          d
        ≡ elim (find_login x login d) [
          | none ↦ (err (auth invalid_credentials), d)
          | some r ↦ (Spec.check x h l t password r now, d)
        ]
  found-same login password now d =
      rw (get_by_login-told x (auth invalid_credentials) login d)
        (looked_up password now (find_login x login d) d)

  plain_login-same :
      (p : LoginParams) (now : ℕ) (d : Db) → plain_login p now d ≡ Spec.login x h l t p now d
  unfolding Spec.login
  plain_login-same p now d =
      guarded _ _ _ _ (guarded _ _ _ _ (found-same p.login p.login_credential now)) d

  pub Serves-login :
      (p : LoginParams) (now : ℕ) → Serves (login x h l t pool p now) (Spec.login x h l t p now)
  unfolding login compare_password
  Serves-login p now =
      Serves-as {plain = plain_login p now}
        (Serves-guard (is_empty_text p.login) (auth empty_login) _ _ (
          Serves-guard (is_empty p.login_credential) (auth empty_password) _ _ (
            Serves-look _ _ _ _
              (λ d. ap (λ r. r.1) (get_by_login-told x (auth invalid_credentials) p.login d))
              (Serves-if_missing _ _ _ (Serves-get_by_login x p.login))
              (λ user.
                Serves-look _ (hashed (h.compare p.login_credential user.auth_hash)) _ _
                  (hashed-reads _)
                  (Serves-wait acquire_hash_slot _ _ (λ w. unfold acquire_hash_slot in refl)
                    (Serves-hashed _))
                  (λ match. Serves-guard _ _ _ _ (Serves-admitting user _))))))
        (plain_login-same p now)
