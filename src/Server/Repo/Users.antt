-- ===== src/Server/Repo/Users.antt =====
-- infra/postgres/repo_user.go
use yandex_go_final_diploma.Prelude.{String, str_eq, if◌then◌else◌}
use yandex_go_final_diploma.Exec.{Exec, Result, ok, err, pure, ◌>>=◌}
use yandex_go_final_diploma.Server.Domain.{Bytes, User}
use yandex_go_final_diploma.Server.Errors.{
  Err, auth, db, unique_violation, login_taken, user_not_found,
}
use yandex_go_final_diploma.Server.External.{External}
use yandex_go_final_diploma.Server.Store.{UserRow}
use yandex_go_final_diploma.Server.Store.Accounts
use yandex_go_final_diploma.Server.Tx.{Runner, exec, query}
use yandex_go_final_diploma.Server.Tx.Runs.{hide_no_rows}
use yandex_go_final_diploma.Server.Repo.{parse_uuid_or}

-- `constraintUsersLogin`
abbrev pub constraint_users_login : String
constraint_users_login = "users_login_key"

unfoldable pub map_user : External → UserRow → User
map_user x row = record {
  id = x.uuid_text row.id;
  login = row.login;
  auth_hash = row.auth_hash;
  enc_kdf_salt = row.enc_kdf_salt;
  enc_kdf_params = row.enc_kdf_params;
  enc_master_key = row.enc_master_key;
}

-- The end of `Create`: that the login is there already is told apart from every other failure.
unfoldable pub created : External → Result Err UserRow → Result Err User
unfolding map_user
created x (err (db (unique_violation constraint))) =
    if str_eq constraint constraint_users_login
    then err (auth login_taken)
    else err (db (unique_violation constraint))
created x (err e) = err e
created x (ok row) = ok (map_user x row)

module _ {S : Type 0} (x : External) (q : Runner S) where
  unfoldable pub create : User → Exec S Err User
  unfolding created
  create u s =
      let (r, s') = q _ query (Accounts.create_user x u.login u.auth_hash) s in (created x r, s')

  unfoldable pub get_by_login : String → Exec S Err User
  get_by_login login = do
    row ← hide_no_rows (auth user_not_found) (q _ query (Accounts.get_user_by_login x login))
    pure (map_user x row)

  unfoldable pub get_by_id : String → Exec S Err User
  get_by_id id = do
    uid ← parse_uuid_or x id (auth user_not_found)
    row ← hide_no_rows (auth user_not_found) (q _ query (Accounts.get_user_by_id uid))
    pure (map_user x row)

  unfoldable pub update_enc_kdf : String → Bytes → Bytes → Bytes → Exec S Err (Unit {0})
  update_enc_kdf user_id salt params enc_master_key = do
    uid ← parse_uuid_or x user_id (auth user_not_found)
    q _ exec (Accounts.update_user_enc_kdf x uid salt params enc_master_key)
