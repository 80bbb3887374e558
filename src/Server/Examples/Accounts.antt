-- ===== src/Server/Examples/Accounts.antt =====
-- A registration, a second one under the same name, logins and a setup of encryption.
use yandex_go_final_diploma.Prelude.{
  select, ℕ, String, some, ◌≡◌, refl, ap, inl, List, [], ◌∷◌, str_eq, eq_iff, arith, find, update,
}
use yandex_go_final_diploma.Exec.{ok, err, refuse_if}
use yandex_go_final_diploma.Server.Domain.{Bytes}
use yandex_go_final_diploma.Server.Errors.{Err, auth, invalid_credentials, is_conn_retryable}
use yandex_go_final_diploma.Server.Store.{
  UserRow, World, Event, lost_connection, fine, atomic, draw, keep_on_error, send, under,
}
use yandex_go_final_diploma.Server.Store.Accounts
use yandex_go_final_diploma.Server.Store.Accounts.{kdf_params_column, find_login}
use yandex_go_final_diploma.Server.Store.Queries.{find_user}
use yandex_go_final_diploma.Server.Tx.{
  pool, querier, retrying, ask, asked, read_rows, with_retry, attempts, retry, after_delay,
}
use yandex_go_final_diploma.Server.Tx.Runs.{Serves, hide_no_rows, swap_no_rows}
use yandex_go_final_diploma.Server.Repo.{parse_uuid_or}
use yandex_go_final_diploma.Server.Repo.Users as Repo
use yandex_go_final_diploma.Server.Accounts.{
  Argon2id, HashLaws, RegisterParams, RegisterResult, LoginParams, LoginResult,
  SetupEncryptionParams, acquire_hash_slot, hashed, issued, hash_password, compare_password,
  missing_user_as, if_missing, login_result, register, login, refresh_token, setup_encryption,
}
use yandex_go_final_diploma.Server.Accounts.Spec
use yandex_go_final_diploma.Server.Accounts.Exchanges.{accounts-Serve}
use yandex_go_final_diploma.Server.Accounts.History.{Call, after_all, logs_in, sets_up}
use yandex_go_final_diploma.Server.Accounts.Registered.{Told}
use yandex_go_final_diploma.Server.Accounts.Lasting.{register-login, register-taken}
use yandex_go_final_diploma.Server.Accounts.Keys.{Carries, setup-Carries}
use yandex_go_final_diploma.Server.Examples.Ids.{sample, sample-UuidLaws, sample-JsonbLaws}
use yandex_go_final_diploma.Server.Examples.Json.{blank_free}
use yandex_go_final_diploma.Server.Examples.Data.{base}
use yandex_go_final_diploma.Jwt.{issue, sign}
use yandex_go_final_diploma.Jwt.Examples.{issuer}
use yandex_go_final_diploma.Jwt.Examples.Plain.{plain, spell, access_text, refresh_text}

-- A hash that spells the password out.
abbrev pub spell_all : Bytes → String
spell_all [] = ""
spell_all (n ∷ ns) = spell n (spell_all ns)

abbrev pub spelling : Argon2id
spelling = record {
  create_hash = λ salt password. some (spell_all password);
  compare = λ password hash. some (str_eq (spell_all password) hash);
}

spelling-HashLaws : HashLaws spelling
spelling-HashLaws = record {
  own = λ salt password hash h. ap some ((eq_iff (spell_all password) hash).1 (ground (arith, h)));
}

abbrev boris : RegisterParams
boris = record { login = "boris"; login_credential = 3 ∷ [] }

abbrev start : World
start = record { store = base; events = fine ∷ lost_connection ∷ [] }

abbrev uid : String
uid = sample.uuid_text 50

abbrev entered : RegisterResult
entered = record {
  user_id = uid;
  access_token = access_text 3 8 uid;
  refresh_token = refresh_text 3 23 uid;
}

registered : (register sample spelling plain issuer pool boris [] 3 start).0 ≡ ok entered
unfolding register hash_password acquire_hash_slot hashed issued Repo.create Repo.created
    Repo.map_user Accounts.create_user find_user find_login refuse_if querier retrying ask asked
    read_rows with_retry attempts retry after_delay is_conn_retryable atomic draw keep_on_error send
    under find issue sign
registered = refl

-- What happens afterwards: the new user sets up encryption, and someone fails to log in.
abbrev keys : SetupEncryptionParams
keys = record {
  user_id = uid;
  enc_kdf_salt = 1 ∷ [];
  enc_kdf_params = 123 ∷ 32 ∷ 125 ∷ [];
  enc_master_key = 3 ∷ [];
}

abbrev guess : LoginParams
guess = record { login = "boris"; login_credential = 4 ∷ [] }

abbrev own : LoginParams
own = record { login = "boris"; login_credential = 3 ∷ [] }

abbrev calls : List (Call × ℕ × List Event)
calls = (sets_up keys, 210, lost_connection ∷ []) ∷ (logs_in guess, 220, []) ∷ []

abbrev later_world : World
later_world = record {
  store =
      after_all sample spelling plain issuer calls
        (register sample spelling plain issuer pool boris [] 3 start).1.store;
  events = lost_connection ∷ [];
}

register-login_example :
    (row : UserRow) × (find_login sample "boris" later_world.store ≡ some row)
    × Told
        (Spec.admitted uid row (issue plain issuer uid 9))
        (login sample spelling plain issuer pool own 9 later_world).0
    × Told
        (err (auth invalid_credentials))
        (login sample spelling plain issuer pool guess 9 later_world).0
register-login_example =
    register-login sample spelling plain issuer spelling-HashLaws boris [] 3
      (spell_all boris.login_credential) entered start refl registered calls "boris"
      guess.login_credential 9 (lost_connection ∷ []) refl refl refl refl

register-taken_example :
    (e : Err) × ((register sample spelling plain issuer pool boris (7 ∷ []) 9 later_world).0
      ≡ err e)
    × ((register sample spelling plain issuer pool boris (7 ∷ []) 9 later_world).1.store
        ≡ later_world.store)
register-taken_example =
    register-taken sample spelling plain issuer boris [] 3 (spell_all boris.login_credential)
      entered start refl registered calls boris (7 ∷ []) 9 (lost_connection ∷ []) refl

-- The setup, and the login behind it.
abbrev signed_up : World
signed_up = record {
  store = (register sample spelling plain issuer pool boris [] 3 start).1.store;
  events = [];
}

abbrev set_up : World
set_up = record {
  store = (setup_encryption sample pool keys signed_up).1.store;
  events = lost_connection ∷ [];
}

abbrev answer : LoginResult
answer = record {
  user_id = uid;
  access_token = access_text 4 9 uid;
  refresh_token = refresh_text 4 24 uid;
  enc_kdf_salt = keys.enc_kdf_salt;
  enc_kdf_params = 123 ∷ 125 ∷ [];
  enc_master_key = keys.enc_master_key;
}

accepted : (setup_encryption sample pool keys signed_up).0 ≡ ok tt
unfolding register hash_password acquire_hash_slot hashed issued Repo.create Repo.created
    Repo.map_user Accounts.create_user find_user find_login refuse_if querier retrying ask asked
    read_rows with_retry attempts retry after_delay is_conn_retryable atomic draw keep_on_error send
    under find issue sign setup_encryption if_missing missing_user_as Repo.get_by_id parse_uuid_or
    hide_no_rows swap_no_rows Accounts.get_user_by_id Repo.update_enc_kdf
    Accounts.update_user_enc_kdf kdf_params_column select
accepted = refl

let_in : (login sample spelling plain issuer pool own 4 set_up).0 ≡ ok answer
unfolding register hash_password acquire_hash_slot hashed issued Repo.create Repo.created
    Repo.map_user Accounts.create_user find_user find_login refuse_if querier retrying ask asked
    read_rows with_retry attempts retry after_delay is_conn_retryable atomic draw keep_on_error send
    under find update issue sign setup_encryption if_missing missing_user_as Repo.get_by_id
    parse_uuid_or hide_no_rows swap_no_rows Accounts.get_user_by_id Repo.update_enc_kdf
    Accounts.update_user_enc_kdf kdf_params_column select login compare_password Repo.get_by_login
    Accounts.get_user_by_login login_result
let_in = refl

setup-Carries_example : Carries sample blank_free keys answer
setup-Carries_example =
    setup-Carries sample spelling plain issuer blank_free sample-JsonbLaws sample-UuidLaws keys
      signed_up own "" 4 (lost_connection ∷ []) answer accepted refl (inl let_in)

accounts-Serve_example :
    Serves
      (register sample spelling plain issuer pool boris [] 3)
      (Spec.register sample spelling plain issuer boris [] 3)
    × Serves
        (login sample spelling plain issuer pool own 3)
        (Spec.login sample spelling plain issuer own 3)
    × Serves
        (refresh_token sample plain issuer pool entered.refresh_token 3)
        (Spec.refresh_token sample plain issuer entered.refresh_token 3)
    × Serves (setup_encryption sample pool keys) (Spec.setup_encryption sample keys)
accounts-Serve_example =
    accounts-Serve sample spelling plain issuer boris [] own entered.refresh_token keys 3
