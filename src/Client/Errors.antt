-- ===== src/Client/Errors.antt =====
-- The errors that reach the client's scenarios: grpcclient/errors.go, usecase/secret/errors.go, a failed
-- SQLite statement and an entry of the queue that does not decode.
use yandex_go_final_diploma.Prelude.{ℕ, String, Bool, true, false}
use yandex_go_final_diploma.Server.Domain.{Bytes}

-- `contracts.ServerSecret`, the server's version that a conflict carries. A type is an `int32` as its
-- bit pattern.
pub record ServerSecret : Type 0 where
  pub id : String
  pub type : ℕ
  pub version : ℕ
  pub enc_row : Bytes
  pub enc_index : Bytes
  pub enc_payload : Bytes

pub data ClientErr : Type 0 where
  invalid_credentials login_taken not_found unavailable internal invalid_argument : ClientErr
  conflict : ServerSecret → ClientErr
  vault_locked empty_vault_id empty_secret_id index_too_large outbox_entry_not_found : ClientErr
  no_tokens decode_failure local_failure no_uploader unknown_op crypto_failure unknown_choice :
      ClientErr

-- `isOffline`
unfoldable pub is_offline : ClientErr → Bool
is_offline unavailable = true
is_offline _ = false

-- `shouldFallbackOffline`: the server is out of reach, or the token has expired.
unfoldable pub should_fallback_offline : ClientErr → Bool
should_fallback_offline unavailable = true
should_fallback_offline invalid_credentials = true
should_fallback_offline _ = false
