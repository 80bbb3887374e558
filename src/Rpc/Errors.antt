-- ===== src/Rpc/Errors.antt =====
-- grpcserver/errors.go and grpcclient/errors.go: errors become statuses on the server, and errors again on
-- the client.
pub mod Conflicts
use yandex_go_final_diploma.Prelude.{
  Bool, true, false, Option, none, some, List, [], ◌∷◌, if◌then◌else◌,
}
use yandex_go_final_diploma.Server.Domain.{Secret}
use yandex_go_final_diploma.Server.Errors.{
  Err, secret, conflict, vault, auth, SecretErr, vault_not_found, secret_not_found, empty_vault_id,
  empty_enc_row, empty_enc_index, empty_blob_ref, not_binary_secret, AuthErr, login_taken,
  invalid_credentials, user_not_found, invalid_refresh_token, empty_login, empty_password,
  not_implemented,
}
use yandex_go_final_diploma.Client.Errors.{ClientErr, ServerSecret}
use yandex_go_final_diploma.Rpc.Messages.{SecretConflict, to_int32}
use yandex_go_final_diploma.Rpc.{
  Code, Status, Detail, secret_conflict, other_detail, status, StatusLibrary,
}

unfoldable pub map_vault_err : Err → Status
map_vault_err (vault _) = status Code.invalid_argument
map_vault_err _ = status Code.internal

-- `mapper.SecretConflictDetail`
unfoldable pub secret_conflict_detail : Secret → SecretConflict
unfolding to_int32
secret_conflict_detail s = record {
  secret_id = s.id;
  type = to_int32 s.type;
  version = s.version;
  enc_row = s.enc_row;
  enc_index = s.enc_index;
  enc_payload = s.enc_payload;
}

-- The bare code, where the detail could not be put in.
abbrev pub with_detail : Option Status → Status
with_detail none = status Code.aborted
with_detail (some s) = s

unfoldable pub secret_conflict_status : StatusLibrary → Secret → Status
unfolding secret_conflict_detail
secret_conflict_status g s =
    with_detail (g.with_details (status Code.aborted) (secret_conflict (secret_conflict_detail s)))

unfoldable pub secret_err_code : SecretErr → Code
secret_err_code vault_not_found = Code.not_found
secret_err_code secret_not_found = Code.not_found
secret_err_code SecretErr.empty_user_id = Code.invalid_argument
secret_err_code empty_vault_id = Code.invalid_argument
secret_err_code SecretErr.empty_secret_id = Code.invalid_argument
secret_err_code empty_enc_row = Code.invalid_argument
secret_err_code empty_enc_index = Code.invalid_argument
secret_err_code empty_blob_ref = Code.internal
secret_err_code not_binary_secret = Code.internal

unfoldable pub map_secret_err : StatusLibrary → Err → Status
unfolding secret_conflict_status secret_err_code
map_secret_err g (conflict s) = secret_conflict_status g s
map_secret_err g (secret e) = status (secret_err_code e)
map_secret_err g _ = status Code.internal

unfoldable pub auth_err_code : AuthErr → Code
auth_err_code login_taken = Code.already_exists
auth_err_code invalid_credentials = Code.unauthenticated
auth_err_code user_not_found = Code.not_found
auth_err_code invalid_refresh_token = Code.unauthenticated
auth_err_code empty_login = Code.invalid_argument
auth_err_code empty_password = Code.invalid_argument
auth_err_code not_implemented = Code.unimplemented
auth_err_code AuthErr.empty_user_id = Code.internal

unfoldable pub map_auth_err : Err → Status
unfolding auth_err_code
map_auth_err (auth e) = status (auth_err_code e)
map_auth_err _ = status Code.internal

-- The secret in the first detail that is a conflict.
unfoldable pub conflict_in : List Detail → Option ServerSecret
conflict_in [] = none
conflict_in (secret_conflict c ∷ rest) = some (record {
  id = c.secret_id;
  type = c.type;
  version = c.version;
  enc_row = c.enc_row;
  enc_index = c.enc_index;
  enc_payload = c.enc_payload;
})
conflict_in (other_detail ∷ rest) = conflict_in rest

abbrev pub is_aborted : Code → Bool
is_aborted Code.aborted = true
is_aborted _ = false

unfoldable pub conflict_from_status : Status → Option ServerSecret
unfolding conflict_in
conflict_from_status s = if is_aborted s.code then conflict_in s.details else none

unfoldable pub map_code : Code → ClientErr
map_code Code.already_exists = ClientErr.login_taken
map_code Code.unauthenticated = ClientErr.invalid_credentials
map_code Code.not_found = ClientErr.not_found
map_code Code.unavailable = ClientErr.unavailable
map_code Code.deadline_exceeded = ClientErr.unavailable
map_code Code.invalid_argument = ClientErr.invalid_argument
map_code _ = ClientErr.internal

-- The errors of a stub are statuses.
unfoldable pub map_err : Status → ClientErr
unfolding map_code
map_err s = map_code s.code

-- What `UpdateSecret` and `DeleteSecret` of the client return for an error.
unfoldable pub change_err : Status → ClientErr
unfolding conflict_from_status map_err
change_err s = elim (conflict_from_status s) [ none ↦ map_err s | some c ↦ ClientErr.conflict c ]
