-- ===== src/Server/Errors.antt =====
-- The errors of the server's packages: usecase/{secret,vault,auth,blob}/errors.go, the conflict of
-- usecase/secret/conflict.go, pkg/jwt, and what a PostgreSQL statement reports
-- (infra/postgres/errors.go). A context added by `fmt.Errorf("...: %w", err)` is left out: every
-- reader of an error looks through it by `errors.Is` or `errors.As`.
use yandex_go_final_diploma.Prelude.{String, Bool, true, false}
use yandex_go_final_diploma.Server.Domain.{Secret}

-- What a statement, the opening or the commit of a transaction can report.
pub data DbErr : Type 0 where
  no_rows : DbErr
  unique_violation : String → DbErr
  foreign_key_violation : DbErr
  out_of_range : DbErr
  -- a text that is no JSON, for a `jsonb` column
  invalid_json : DbErr
  conn_lost : DbErr
  serialization_failure : DbErr
  other_failure : DbErr

pub data SecretErr : Type 0 where
  empty_user_id empty_vault_id empty_secret_id empty_enc_row empty_enc_index : SecretErr
  vault_not_found secret_not_found empty_blob_ref not_binary_secret : SecretErr

pub data VaultErr : Type 0 where
  empty_user_id empty_vault_key empty_enc_name : VaultErr

pub data AuthErr : Type 0 where
  login_taken invalid_credentials user_not_found invalid_refresh_token : AuthErr
  empty_login empty_password empty_user_id not_implemented : AuthErr

pub data BlobErr : Type 0 where
  storage_disabled empty_secret_id empty_user_id secret_not_found no_data storage_failure : BlobErr

pub data JwtErr : Type 0 where
  invalid_token wrong_type sign_failure : JwtErr

pub data Err : Type 0 where
  secret : SecretErr → Err
  conflict : Secret → Err
  vault : VaultErr → Err
  auth : AuthErr → Err
  blob : BlobErr → Err
  jwt : JwtErr → Err
  db : DbErr → Err
  -- an id that is no UUID, where the repository does not hide it behind a "not found"
  invalid_uuid : Err
  -- a recovery code that is not there or has been used
  recovery_code_gone : Err
  -- argon2id failed
  hash_failure : Err
  -- `ctx.Err()`
  context_done : Err

-- `isConnRetryable`: `pgconn.SafeToRetry`, the statement was never sent.
unfoldable pub is_conn_retryable : Err → Bool
is_conn_retryable (db conn_lost) = true
is_conn_retryable _ = false

-- `isTxRetryable`: besides, a serialization failure or a deadlock.
unfoldable pub is_tx_retryable : Err → Bool
is_tx_retryable (db conn_lost) = true
is_tx_retryable (db serialization_failure) = true
is_tx_retryable _ = false

-- The errors that the environment causes, whatever the data: the connection, a deadlock, another
-- failure of the database server, a cancelled request.
unfoldable pub is_fault : Err → Bool
is_fault (db conn_lost) = true
is_fault (db serialization_failure) = true
is_fault (db other_failure) = true
is_fault context_done = true
is_fault _ = false
