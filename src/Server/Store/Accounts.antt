-- ===== src/Server/Store/Accounts.antt =====
-- The statements on users, vaults and recovery codes (infra/postgres/gen/{users,vaults,
-- recovery_codes}.sql.go).
use yandex_go_final_diploma.Prelude.{
  ℕ, ◌+◌, String, Bool, true, false, ◌&&◌, not, Option, none, some, List, [], ◌∷◌, ◌++◌, ◌==◌,
  str_eq, if◌then◌else◌, find, select, update,
}
use yandex_go_final_diploma.Exec.{ok, err}
use yandex_go_final_diploma.Server.Domain.{Bytes}
use yandex_go_final_diploma.Server.Errors.{
  db, no_rows, invalid_json, unique_violation, foreign_key_violation,
}
use yandex_go_final_diploma.Server.External.{External}
use yandex_go_final_diploma.Server.Store.{Db, UserRow, VaultRow, RecoveryRow, Query}
use yandex_go_final_diploma.Server.Store.Queries.{find_user, find_vault, with_user_id, order_by}

-- The columns of a login are compared as `citext` does.
abbrev pub with_login : External → String → UserRow → Bool
with_login x login r = str_eq (x.fold_login r.login) (x.fold_login login)

module _ (x : External) where
  unfoldable pub find_login : String → Db → Option UserRow
  find_login login d = find (with_login x login) d.users

  unfoldable pub create_user : String → String → Query UserRow
  unfolding find_login find_user
  create_user login auth_hash d = elim (find_user (x.random_uuid d.seed) d) [
    | some _ ↦ (err (db (unique_violation "users_pkey")), d)
    | none ↦ elim (find_login login d) [
      | some _ ↦ (err (db (unique_violation "users_login_key")), d)
      | none ↦
          let r : UserRow = record {
            id = x.random_uuid d.seed;
            login = login;
            auth_hash = auth_hash;
            enc_kdf_salt = [];
            enc_kdf_params = [];
            enc_master_key = [];
          } in
          (ok r, record d { users = d.users ++ r ∷ []; seed = d.seed + 1 })
    ]
  ]

  unfoldable pub get_user_by_login : String → Query UserRow
  unfolding find_login
  get_user_by_login login d = elim (find_login login d) [
    | none ↦ (err (db no_rows), d)
    | some r ↦ (ok r, d)
  ]

  unfoldable pub create_vault : ℕ → Bytes → Bytes → Query VaultRow
  unfolding find_user find_vault
  create_vault user_id wrapped_vault_key enc_name d = elim (find_vault (x.random_uuid d.seed) d) [
    | some _ ↦ (err (db (unique_violation "vaults_pkey")), d)
    | none ↦ elim (find_user user_id d) [
      | none ↦ (err (db foreign_key_violation), d)
      | some _ ↦
          let r : VaultRow = record {
            id = x.random_uuid d.seed;
            user_id = user_id;
            wrapped_vault_key = wrapped_vault_key;
            enc_name = enc_name;
            version = 1;
            deleted = false;
            created_at = d.now;
          } in
          (ok r, record d { vaults = d.vaults ++ r ∷ []; seed = d.seed + 1 })
    ]
  ]

unfoldable pub get_user_by_id : ℕ → Query UserRow
unfolding find_user
get_user_by_id id d = elim (find_user id d) [ none ↦ (err (db no_rows), d) | some r ↦ (ok r, d) ]

-- What the column `enc_kdf_params` gives back: `nil` is a NULL, and a text is taken as JSON.
unfoldable pub kdf_params_column : External → Bytes → Option Bytes
kdf_params_column x [] = some []
kdf_params_column x (b ∷ bs) = x.jsonb (b ∷ bs)

unfoldable pub update_user_enc_kdf : External → ℕ → Bytes → Bytes → Bytes → Query (Unit {0})
unfolding kdf_params_column
update_user_enc_kdf x id salt params enc_master_key d = elim (kdf_params_column x params) [
  | none ↦ (err (db invalid_json), d)
  | some stored ↦ (
    ok tt,
    record d {
      users =
          update (with_user_id id)
            (λ r. record r {
              enc_kdf_salt = salt;
              enc_kdf_params = stored;
              enc_master_key = enc_master_key;
            })
            d.users;
    },
  )
]

abbrev pub owned_vault : ℕ → VaultRow → Bool
owned_vault user_id v = v.user_id == user_id && not v.deleted

unfoldable pub list_vaults_by_user : ℕ → Query (List VaultRow)
list_vaults_by_user user_id d =
    (ok (order_by (λ v. v.created_at) (select (owned_vault user_id) d.vaults)), d)

unfoldable pub check_vault_freshness : ℕ → Query (List VaultRow)
check_vault_freshness user_id d =
    (ok (order_by (λ v. v.id) (select (owned_vault user_id) d.vaults)), d)

unfoldable pub vault_belongs_to_user : ℕ → ℕ → Query Bool
unfolding find_vault
vault_belongs_to_user id user_id d = elim (find_vault id d) [
  | none ↦ (ok false, d)
  | some v ↦ (ok (owned_vault user_id v), d)
]

abbrev pub with_code : ℕ → String → RecoveryRow → Bool
with_code user_id code_id r = r.user_id == user_id && str_eq r.code_id code_id

unfoldable pub find_code : ℕ → String → Db → Option RecoveryRow
find_code user_id code_id d = find (with_code user_id code_id) d.recovery_codes

-- INSERT ... ON CONFLICT (user_id, code_id) DO UPDATE
unfoldable pub store_recovery_code : ℕ → String → Bytes → Query (Unit {0})
unfolding find_code find_user
store_recovery_code user_id code_id enc_master_key d = elim (find_user user_id d) [
  | none ↦ (err (db foreign_key_violation), d)
  | some _ ↦ elim (find_code user_id code_id d) [
    | some _ ↦ (
      ok tt,
      record d {
        recovery_codes =
            update (with_code user_id code_id)
              (λ r. record r { enc_master_key = enc_master_key; used = false }) d.recovery_codes;
      },
    )
    | none ↦
        let r : RecoveryRow = record {
          user_id = user_id;
          code_id = code_id;
          enc_master_key = enc_master_key;
          used = false;
        } in
        (ok tt, record d { recovery_codes = d.recovery_codes ++ r ∷ [] })
  ]
]

unfoldable pub get_recovery_blob : ℕ → String → Query Bytes
unfolding find_code
get_recovery_blob user_id code_id d = elim (find_code user_id code_id d) [
  | none ↦ (err (db no_rows), d)
  | some r ↦ if r.used then (err (db no_rows), d) else (ok r.enc_master_key, d)
]

unfoldable pub mark_recovery_code_used : ℕ → String → Query (Unit {0})
mark_recovery_code_used user_id code_id d = (
  ok tt,
  record d {
    recovery_codes =
        update (with_code user_id code_id) (λ r. record r { used = true }) d.recovery_codes;
  },
)

unfoldable pub delete_user_recovery_codes : ℕ → Query (Unit {0})
delete_user_recovery_codes user_id d =
    (ok tt, record d { recovery_codes = select (λ r. not (r.user_id == user_id)) d.recovery_codes })
