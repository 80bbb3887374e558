-- ===== src/Client/Examples/Data.antt =====
-- A device with a vault, a secret and a queue, and a server that counts the changes it accepts.
use yandex_go_final_diploma.Prelude.{
  ℕ, ◌+◌, String, true, false, none, some, [], ◌∷◌, ◌==◌, if◌then◌else◌,
}
use yandex_go_final_diploma.Exec.{Exec, ok, err}
use yandex_go_final_diploma.Client.Errors.{ClientErr, conflict, unavailable}
use yandex_go_final_diploma.Client.Local.{
  Local, LocalVault, LocalSecret, OutboxEntry, OutboxOp, pending,
}
use yandex_go_final_diploma.Client.Device.{Device, ServerClient, Json, OutboxSecretUpdate}

abbrev pub a_vault : LocalVault
a_vault = record {
  id = "v1";
  wrapped_vault_key = 1 ∷ [];
  enc_name = 2 ∷ [];
  version = 1;
  synced_version = 1;
  deleted = false;
  sync_enabled = true;
}

abbrev pub a_secret : String → ℕ → LocalSecret
a_secret id version = record {
  id = id;
  vault_id = "v1";
  type = 1;
  enc_row = 7 ∷ [];
  enc_index = [];
  enc_payload = [];
  version = version;
  index_loaded = false;
  payload_loaded = false;
  dirty = true;
  deleted = false;
}

abbrev pub an_edit : ℕ → String → OutboxEntry
an_edit id secret = record {
  id = id;
  op = OutboxOp.update;
  entity = "secret";
  entity_id = secret;
  base_version = 1;
  payload = 1 ∷ [];
  status = pending;
}

abbrev pub tables : Local
tables = record {
  vaults = a_vault ∷ [];
  secrets = a_secret "s1" 2 ∷ a_secret "s2" 1 ∷ [];
  outbox = an_edit 1 "s1" ∷ an_edit 2 "s2" ∷ [];
  next_id = 3;
  kv = [];
}

-- Even changes are refused with the version of the server.
abbrev pub answer : {A : Type 0} → A → Exec ℕ ClientErr A
answer a n = (ok a, n + 1)

abbrev pub a_server : ServerClient ℕ
a_server = record {
  check_freshness = λ _ n. (ok (record { id = "v1"; version = 5 } ∷ []), n);
  list_vaults = λ _ n. (ok [], n);
  list_secret_rows = λ _ _ n. (
    ok (
        record { id = "s1"; type = 1; version = 9; enc_row = 8 ∷ [] }
        ∷ record { id = "s3"; type = 1; version = 4; enc_row = 9 ∷ [] }
        ∷ []),
    n,
  );
  list_secret_index = λ _ _ n. (ok [], n);
  get_secret_payload = λ _ _ n. (err unavailable, n);
  create_secret = λ _ _ _ _ _ _ _. answer tt;
  update_secret = λ _ _ base _ _ _ n. if n == 0 then (ok (base + 1), 1) else (
    err (
        conflict (record {
          id = "s2";
          type = 1;
          version = 6;
          enc_row = [];
          enc_index = [];
          enc_payload = [];
        })),
    n,
  );
  delete_secret = λ _ _ _. answer tt;
}

abbrev pub a_device : {S : Type 0} → S → Device S
a_device s = record { local = tables; faults = []; token = some "t"; remote = s }

abbrev an_update : OutboxSecretUpdate
an_update = record {
  secret_id = "s1";
  vault_id = "v1";
  base_version = 1;
  type = 1;
  enc_row = 7 ∷ [];
  enc_index = [];
  enc_payload = [];
}

-- Every body reads as the same edit; no other operation is queued.
abbrev pub a_json : Json
a_json = record {
  creates = record { put = λ _. []; get = λ _. none };
  updates = record { put = λ _. 1 ∷ []; get = λ _. some an_update };
  deletes = record { put = λ _. []; get = λ _. none };
  uploads = record { put = λ _. []; get = λ _. none };
}
