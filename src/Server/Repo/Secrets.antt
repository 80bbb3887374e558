-- ===== src/Server/Repo/Secrets.antt =====
-- infra/postgres/repo_secret.go, and `IsOwner` of repo_vault.go
use yandex_go_final_diploma.Prelude.{ℕ, String, Bool, false, Option, none, some, List, [], map}
use yandex_go_final_diploma.Exec.{Exec, pure, ◌>>=◌}
use yandex_go_final_diploma.Server.Domain.{Bytes, Secret}
use yandex_go_final_diploma.Server.Errors.{Err, secret, secret_not_found, invalid_uuid}
use yandex_go_final_diploma.Server.External.{External}
use yandex_go_final_diploma.Server.Store.{SecretRow}
use yandex_go_final_diploma.Server.Store.Queries
use yandex_go_final_diploma.Server.Store.Accounts.{vault_belongs_to_user}
use yandex_go_final_diploma.Server.Tx.{Runner, exec, query}
use yandex_go_final_diploma.Server.Tx.Runs.{hide_no_rows}
use yandex_go_final_diploma.Server.Repo.{parse_uuid_or}

abbrev pub not_found : Err
not_found = secret secret_not_found

-- A whole row.
unfoldable pub to_secret : External → SecretRow → Secret
to_secret x r = record {
  id = x.uuid_text r.id;
  vault_id = x.uuid_text r.vault_id;
  type = r.type;
  enc_row = r.enc_row;
  enc_index = r.enc_index;
  enc_payload = r.enc_payload;
  blob_ref = r.blob_ref;
  blob_size = r.blob_size;
  version = r.version;
  deleted = r.deleted;
}

-- The columns of `ListSecretRows`; a field that was not read has Go's zero value.
unfoldable pub row_secret : External → String → SecretRow → Secret
row_secret x vault_id r = record {
  id = x.uuid_text r.id;
  vault_id = vault_id;
  type = r.type;
  enc_row = r.enc_row;
  enc_index = [];
  enc_payload = [];
  blob_ref = none;
  blob_size = none;
  version = r.version;
  deleted = false;
}

-- The columns of `ListSecretIndex`.
unfoldable pub index_secret : External → String → SecretRow → Secret
index_secret x vault_id r = record {
  id = x.uuid_text r.id;
  vault_id = vault_id;
  type = 0;
  enc_row = [];
  enc_index = r.enc_index;
  enc_payload = [];
  blob_ref = none;
  blob_size = none;
  version = r.version;
  deleted = false;
}

-- The columns of `GetSecretPayload`.
unfoldable pub payload_secret : External → SecretRow → Secret
payload_secret x r = record {
  id = x.uuid_text r.id;
  vault_id = "";
  type = r.type;
  enc_row = [];
  enc_index = [];
  enc_payload = r.enc_payload;
  blob_ref = none;
  blob_size = none;
  version = r.version;
  deleted = false;
}

module _ {S : Type 0} (x : External) (q : Runner S) where
  unfoldable pub create : Secret → Exec S Err Secret
  create s = do
    vault_id ← parse_uuid_or x s.vault_id invalid_uuid
    secret_id ← parse_uuid_or x s.id invalid_uuid
    row ←
        q _ query
          (Queries.create_secret secret_id vault_id s.type s.enc_row s.enc_index s.enc_payload)
    pure (record s { id = x.uuid_text row.id; version = row.version })

  unfoldable pub get_for_update : String → String → Exec S Err Secret
  get_for_update secret_id user_id = do
    sid ← parse_uuid_or x secret_id not_found
    uid ← parse_uuid_or x user_id invalid_uuid
    row ← hide_no_rows not_found (q _ query (Queries.get_secret_for_update sid uid))
    pure (to_secret x row)

  unfoldable pub update_fields : String → Bytes → Bytes → Bytes → Exec S Err ℕ
  update_fields secret_id enc_row enc_index enc_payload = do
    sid ← parse_uuid_or x secret_id not_found
    q _ query (Queries.update_secret_fields sid enc_row enc_index enc_payload)

  unfoldable pub soft_delete : String → Exec S Err ℕ
  soft_delete secret_id = do
    sid ← parse_uuid_or x secret_id not_found
    q _ query (Queries.soft_delete_secret sid)

  unfoldable pub attach_blob : String → String → ℕ → Exec S Err ℕ
  attach_blob secret_id blob_ref blob_size = do
    sid ← parse_uuid_or x secret_id not_found
    q _ query (Queries.attach_blob sid blob_ref blob_size)

  unfoldable pub bump_vault_version : String → Exec S Err (Unit {0})
  bump_vault_version vault_id = do
    vid ← parse_uuid_or x vault_id invalid_uuid
    q _ exec (Queries.bump_vault_version vid)

  unfoldable pub list_row : String → String → Exec S Err (List Secret)
  list_row vault_id user_id = do
    vid ← parse_uuid_or x vault_id invalid_uuid
    uid ← parse_uuid_or x user_id invalid_uuid
    rows ← q _ query (Queries.list_secrets vid uid)
    pure (map (row_secret x vault_id) rows)

  unfoldable pub list_index : String → String → Exec S Err (List Secret)
  list_index vault_id user_id = do
    vid ← parse_uuid_or x vault_id invalid_uuid
    uid ← parse_uuid_or x user_id invalid_uuid
    rows ← q _ query (Queries.list_secrets vid uid)
    pure (map (index_secret x vault_id) rows)

  unfoldable pub get_payload : String → String → Exec S Err Secret
  get_payload secret_id user_id = do
    sid ← parse_uuid_or x secret_id not_found
    uid ← parse_uuid_or x user_id invalid_uuid
    row ← hide_no_rows not_found (q _ query (Queries.get_secret_payload sid uid))
    pure (payload_secret x row)

  unfoldable pub is_owner_of : Option ℕ → String → Exec S Err Bool
  is_owner_of none user_id = pure false
  is_owner_of (some vid) user_id = do
    uid ← parse_uuid_or x user_id invalid_uuid
    q _ query (vault_belongs_to_user vid uid)

  -- An id that is no UUID belongs to nobody.
  unfoldable pub is_owner : String → String → Exec S Err Bool
  unfolding is_owner_of
  is_owner vault_id user_id = is_owner_of (x.parse_uuid vault_id) user_id
