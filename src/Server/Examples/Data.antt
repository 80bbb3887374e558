-- ===== src/Server/Examples/Data.antt =====
-- A small database, and calls on it.
use yandex_go_final_diploma.Server.Examples.Ids.{sample}
use yandex_go_final_diploma.Prelude.{ℕ, false, none, List, [], ◌∷◌}
use yandex_go_final_diploma.Server.Store.{
  Db, UserRow, VaultRow, SecretRow, World, Event, fine, lost_connection, aborted,
}
use yandex_go_final_diploma.Server.Secrets.{
  CreateParams, UpdateParams, DeleteParams, AttachBlobParams,
}
use yandex_go_final_diploma.Server.Secrets.History.{Call, creates, attaches}

abbrev pub user_row : UserRow
user_row = record {
  id = 0;
  login = "anna";
  auth_hash = "hash";
  enc_kdf_salt = [];
  enc_kdf_params = [];
  enc_master_key = [];
}

abbrev pub vault_row : ℕ → ℕ → VaultRow
vault_row id user_id = record {
  id = id;
  user_id = user_id;
  wrapped_vault_key = 1 ∷ [];
  enc_name = 2 ∷ [];
  version = 5;
  deleted = false;
  created_at = 90;
}

abbrev pub secret_row : ℕ → ℕ → SecretRow
secret_row id vault_id = record {
  id = id;
  vault_id = vault_id;
  type = 3;
  enc_row = 10 ∷ [];
  enc_index = 11 ∷ [];
  enc_payload = 12 ∷ [];
  blob_ref = none;
  blob_size = none;
  version = 1;
  deleted = false;
  created_at = 100;
}

-- User 0 owns vault 1 with secrets 3 and 4; user 9 owns vault 2 with secret 5.
abbrev pub base : Db
base = record {
  users = user_row ∷ [];
  vaults = vault_row 1 0 ∷ vault_row 2 9 ∷ [];
  secrets = secret_row 3 1 ∷ secret_row 4 1 ∷ secret_row 5 2 ∷ [];
  recovery_codes = [];
  now = 200;
  seed = 50;
}

-- The connection is lost in the first round of a transaction, which the second round makes up for.
abbrev pub start : World
start = record { store = base; events = fine ∷ lost_connection ∷ [] }

abbrev pub edit : ℕ → UpdateParams
edit version = record {
  user_id = sample.uuid_text 0;
  secret_id = sample.uuid_text 3;
  base_version = version;
  enc_row = 20 ∷ [];
  enc_index = 21 ∷ [];
  enc_payload = 22 ∷ [];
}

abbrev pub removal : DeleteParams
removal = record { user_id = sample.uuid_text 0; secret_id = sample.uuid_text 3; base_version = 1 }

abbrev pub new : CreateParams
new = record {
  user_id = sample.uuid_text 9;
  vault_id = sample.uuid_text 2;
  secret_id = sample.uuid_text 6;
  type = 1;
  enc_row = 30 ∷ [];
  enc_index = 31 ∷ [];
  enc_payload = 32 ∷ [];
}

abbrev pub upload : AttachBlobParams
upload = record {
  user_id = sample.uuid_text 9;
  secret_id = sample.uuid_text 5;
  base_version = 1;
  blob_ref = "blob";
  blob_size = 64;
}

-- What user 9 does in the meantime.
abbrev pub calls : List (Call × ℕ × List Event)
calls = (creates new, 210, []) ∷ (attaches upload, 220, aborted ∷ []) ∷ []
