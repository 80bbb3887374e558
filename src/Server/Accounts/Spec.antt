-- ===== src/Server/Accounts/Spec.antt =====
-- What registration, login, the exchange of tokens and the setup of encryption promise, as one decision
-- each on the database.
use yandex_go_final_diploma.Prelude.{ℕ, ◌+◌, String, true, false, none, some, [], ◌∷◌, ◌++◌, update}
use yandex_go_final_diploma.Exec.{Result, ok, err}
use yandex_go_final_diploma.Server.Errors.{
  Err, auth, jwt, JwtErr, db, hash_failure, user_not_found, invalid_credentials, login_taken,
  invalid_refresh_token, empty_login, empty_password, unique_violation, invalid_json,
}
use yandex_go_final_diploma.Server.Domain.{Bytes}
use yandex_go_final_diploma.Server.External.{External}
use yandex_go_final_diploma.Server.Store.{Db, UserRow}
use yandex_go_final_diploma.Server.Store.Queries.{find_user, with_user_id}
use yandex_go_final_diploma.Server.Store.Accounts.{find_login, kdf_params_column}
use yandex_go_final_diploma.Server.Secrets.{is_empty, is_empty_text}
use yandex_go_final_diploma.Server.Secrets.Spec.{Decision, unless}
use yandex_go_final_diploma.Server.Accounts.{
  Argon2id, RegisterParams, RegisterResult, LoginParams, LoginResult, SetupEncryptionParams,
}
use yandex_go_final_diploma.Jwt.{Library, TokenIssuer, issue, verify_refresh}

-- The pair of tokens that a user is given, as the answer of a registration.
unfoldable pub registered : String → Result JwtErr (String × String) → Result Err RegisterResult
registered user_id (err e) = err (jwt e)
registered user_id (ok (access, refresh)) =
    ok (record { user_id = user_id; access_token = access; refresh_token = refresh })

-- The pair of tokens and the key material of the row, as the answer of a login.
unfoldable pub admitted :
    String → UserRow → Result JwtErr (String × String) → Result Err LoginResult
admitted user_id r (err e) = err (jwt e)
admitted user_id r (ok (access, refresh)) = ok (record {
  user_id = user_id;
  access_token = access;
  refresh_token = refresh;
  enc_kdf_salt = r.enc_kdf_salt;
  enc_kdf_params = r.enc_kdf_params;
  enc_master_key = r.enc_master_key;
})

abbrev pub new_user : External → String → String → Db → UserRow
new_user x login auth_hash d = record {
  id = x.random_uuid d.seed;
  login = login;
  auth_hash = auth_hash;
  enc_kdf_salt = [];
  enc_kdf_params = [];
  enc_master_key = [];
}

-- The parameters as the `jsonb` column gives them back.
abbrev pub with_keys : SetupEncryptionParams → Bytes → UserRow → UserRow
with_keys p stored r = record r {
  enc_kdf_salt = p.enc_kdf_salt;
  enc_kdf_params = stored;
  enc_master_key = p.enc_master_key;
}

module _ (x : External) (l : Library) (t : TokenIssuer) where
  -- A login that is free is entered with the hash of its credential.
  unfoldable pub enter : String → String → ℕ → Decision RegisterResult
  unfolding find_user find_login registered
  enter login hash now d = elim (find_user (x.random_uuid d.seed) d) [
    | some _ ↦ (err (db (unique_violation "users_pkey")), d)
    | none ↦ elim (find_login x login d) [
      | some _ ↦ (err (auth login_taken), d)
      | none ↦ (
        registered (x.uuid_text (x.random_uuid d.seed))
            (issue l t (x.uuid_text (x.random_uuid d.seed)) now),
        record d { users = d.users ++ new_user x login hash d ∷ []; seed = d.seed + 1 },
      )
    ]
  ]

module _ (x : External) (h : Argon2id) (l : Library) (t : TokenIssuer) where
  unfoldable pub register : RegisterParams → Bytes → ℕ → Decision RegisterResult
  unfolding unless enter
  register p salt now = unless (is_empty_text p.login) (auth empty_login) (
      unless (is_empty p.login_credential) (auth empty_password) (λ d.
        elim (h.create_hash salt p.login_credential) [
          | none ↦ (err hash_failure, d)
          | some hash ↦ enter x l t p.login hash now d
        ]))

  -- Whether the credential goes with the row.
  unfoldable pub check : Bytes → UserRow → ℕ → Result Err LoginResult
  unfolding admitted
  check password r now = elim (h.compare password r.auth_hash) [
    | none ↦ err hash_failure
    | some false ↦ err (auth invalid_credentials)
    | some true ↦ admitted (x.uuid_text r.id) r (issue l t (x.uuid_text r.id) now)
  ]

  unfoldable pub login : LoginParams → ℕ → Decision LoginResult
  unfolding unless find_login check
  login p now = unless (is_empty_text p.login) (auth empty_login) (
      unless (is_empty p.login_credential) (auth empty_password) (λ d.
        elim (find_login x p.login d) [
          | none ↦ (err (auth invalid_credentials), d)
          | some r ↦ (check p.login_credential r now, d)
        ]))

module _ (x : External) (l : Library) (t : TokenIssuer) where
  unfoldable pub refresh_token : String → ℕ → Decision LoginResult
  unfolding find_user admitted
  refresh_token token now d = elim (verify_refresh l t token now) [
    | err _ ↦ (err (auth invalid_refresh_token), d)
    | ok user_id ↦ elim (x.parse_uuid user_id) [
      | none ↦ (err (auth invalid_refresh_token), d)
      | some uid ↦ elim (find_user uid d) [
        | none ↦ (err (auth invalid_refresh_token), d)
        | some r ↦ (admitted user_id r (issue l t user_id now), d)
      ]
    ]
  ]

unfoldable pub setup_encryption : External → SetupEncryptionParams → Decision (Unit {0})
unfolding find_user kdf_params_column
setup_encryption x p d = elim (x.parse_uuid p.user_id) [
  | none ↦ (err (auth user_not_found), d)
  | some uid ↦ elim (find_user uid d) [
    | none ↦ (err (auth user_not_found), d)
    | some _ ↦ elim (kdf_params_column x p.enc_kdf_params) [
      | none ↦ (err (db invalid_json), d)
      | some stored ↦
          (ok tt, record d { users = update (with_user_id uid) (with_keys p stored) d.users })
    ]
  ]
]
