-- ===== src/Client/Replay.antt =====
-- internal/client/usecase/sync/outbox_replay.go: the changes made offline are sent to the server.
pub mod Recorded
pub mod Parts
pub mod Answers
pub mod Waits
pub mod Kept
pub mod Calls
use yandex_go_final_diploma.Prelude.{
  ℕ, String, Bool, true, false, ◌&&◌, not, Option, none, some, List, [], ◌∷◌, if◌then◌else◌, length,
  ltb,
}
use yandex_go_final_diploma.Exec.{Exec, Result, ok, err, pure, raise, ◌>>=◌, ◌>>◌}
use yandex_go_final_diploma.Server.Domain.{Bytes}
use yandex_go_final_diploma.Client.Errors.{
  ClientErr, conflict, decode_failure, no_uploader, unknown_op, is_offline,
}
use yandex_go_final_diploma.Client.Local.{
  Local, LocalSecret, OutboxEntry, OutboxOp, create, update, delete, blob_upload, unknown,
  conflicted,
}
use yandex_go_final_diploma.Client.Local.Secrets as Secrets
use yandex_go_final_diploma.Client.Local.Outbox as Outbox
use yandex_go_final_diploma.Client.Device.{
  ServerClient, OutboxSecretCreate, OutboxSecretUpdate, Codec, Json, Device, Scenario, run_local,
  run_remote, access_token, next_version,
}
use yandex_go_final_diploma.Client.Sync.{is_secret_entry}

-- `len(b) > 0`
abbrev pub is_present : Bytes → Bool
is_present b = ltb 0 (length b)

-- The row that is written once the server has the new secret.
unfoldable pub created_row : OutboxSecretCreate → LocalSecret
created_row p = record {
  id = p.secret_id;
  vault_id = p.vault_id;
  type = p.type;
  enc_row = p.enc_row;
  enc_index = p.enc_index;
  enc_payload = p.enc_payload;
  version = 1;
  index_loaded = is_present p.enc_index;
  payload_loaded = is_present p.enc_payload;
  dirty = false;
  deleted = false;
}

unfoldable pub updated_row : OutboxSecretUpdate → LocalSecret
updated_row p = record {
  id = p.secret_id;
  vault_id = p.vault_id;
  type = p.type;
  enc_row = p.enc_row;
  enc_index = p.enc_index;
  enc_payload = p.enc_payload;
  version = next_version p.base_version;
  index_loaded = is_present p.enc_index;
  payload_loaded = is_present p.enc_payload;
  dirty = false;
  deleted = false;
}

unfoldable pub decoded : {S A : Type 0} → Option A → Scenario S A
decoded none = raise decode_failure
decoded (some p) = pure p

-- `json.Unmarshal` of the entry's payload
unfoldable pub decode : {S A : Type 0} → Codec A → OutboxEntry → Scenario S A
decode c e = decoded (c.get e.payload)

-- `if err != nil { return handle(err) }`; without an error the value is dropped.
unfoldable pub handled :
    {S A : Type 0}
    → (ClientErr → Scenario S Bool)
    → Scenario S Bool
    → Result ClientErr A
    → Scenario S Bool
handled handle rest (ok _) = rest
handled handle rest (err e) = handle e

-- A call with its error left in the hands of the code behind it.
unfoldable pub attempt : {S A : Type 0} → Scenario S A → Scenario S (Result ClientErr A)
attempt m d = let (r, d') = m d in (ok r, d')

unfoldable pub handle_replay_conflict : {S : Type 0} → OutboxEntry → ClientErr → Scenario S Bool
handle_replay_conflict e (conflict _) = do
  run_local (Outbox.set_outbox_status e.id conflicted)
  pure false
handle_replay_conflict e x = raise x

-- `if isOffline(err) { return false, nil }; return false, err`
unfoldable pub upload_failed : {S : Type 0} → ClientErr → Scenario S Bool
upload_failed e = if is_offline e then pure false else raise e

-- `RetryBlobUpload` of the secrets' scenarios, which reads a staged file and calls the server.
abbrev pub Uploader : Type 0 → Type 0
Uploader S = String → String → Exec S ClientErr (Unit {0})

-- What the loop does with the answer for one entry; `rest` is the loop over the others.
unfoldable pub settle :
    {S : Type 0}
    → OutboxEntry
    → Scenario S (Unit {0})
    → Result ClientErr Bool
    → Scenario S (Unit {0})
settle e rest (err x) = if is_offline x then pure tt else raise x
settle e rest (ok false) = rest
settle e rest (ok true) = run_local (Outbox.remove_outbox e.id) >> rest

unfoldable pub upload_by : {S : Type 0} → Json → Option (Uploader S) → OutboxEntry → Scenario S Bool
unfolding decode
upload_by json none e = raise no_uploader
upload_by json (some upload) e = do
  p ← decode json.uploads e
  answer ← attempt (run_remote (upload p.secret_id p.vault_id))
  handled upload_failed (pure true) answer

module _ {S : Type 0} (server : ServerClient S) (uploader : Option (Uploader S)) (json : Json) where
  unfoldable pub replay_create : String → OutboxEntry → Scenario S Bool
  replay_create token e = do
    p ← decode json.creates e
    run_remote (
        server.create_secret token p.secret_id p.vault_id p.type p.enc_row p.enc_index
          p.enc_payload)
    run_local (Secrets.upsert_secret_row (created_row p))
    pure true

  unfoldable pub replay_update : String → OutboxEntry → Scenario S Bool
  replay_update token e = do
    p ← decode json.updates e
    answer ← attempt (
        run_remote (
          server.update_secret token p.secret_id p.base_version p.enc_row p.enc_index
            p.enc_payload))
    handled (handle_replay_conflict e)
        (run_local (Secrets.upsert_secret_row (updated_row p)) >> pure true) answer

  unfoldable pub replay_delete : String → OutboxEntry → Scenario S Bool
  replay_delete token e = do
    p ← decode json.deletes e
    answer ← attempt (run_remote (server.delete_secret token p.secret_id p.base_version))
    handled (handle_replay_conflict e) (run_local (Secrets.delete_secret p.secret_id) >> pure true)
        answer

  unfoldable pub replay_blob_upload : OutboxEntry → Scenario S Bool
  replay_blob_upload e = upload_by json uploader e

  unfoldable pub replay_op : String → OutboxEntry → OutboxOp → Scenario S Bool
  replay_op token e create = replay_create token e
  replay_op token e update = replay_update token e
  replay_op token e delete = replay_delete token e
  replay_op token e blob_upload = replay_blob_upload e
  replay_op token e unknown = raise unknown_op

  unfoldable pub replay_entry : String → OutboxEntry → Scenario S Bool
  replay_entry token e = replay_op token e e.op

  unfoldable pub replay_entries : String → List OutboxEntry → Scenario S (Unit {0})
  replay_entries token [] = pure tt
  replay_entries token (e ∷ entries) =
      let rest = replay_entries token entries in
      if is_secret_entry e then (attempt (replay_entry token e) >>= settle e rest) else rest

  unfoldable pub replay_outbox : Scenario S (Unit {0})
  replay_outbox = do
    token ← access_token
    entries ← run_local Outbox.list_pending_outbox
    replay_entries token entries
