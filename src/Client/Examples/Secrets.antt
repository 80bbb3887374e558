-- ===== src/Client/Examples/Secrets.antt =====
-- Changes of secrets at concrete inputs, with the server out of reach.
use yandex_go_final_diploma.Prelude.{
  find, true, ℕ, Option, none, some, [], ◌∷◌, ◌++◌, ◌≡◌, refl, ap, length,
}
use yandex_go_final_diploma.Exec.{Exec, ok, err, refuse_if}
use yandex_go_final_diploma.Server.Domain.{Bytes}
use yandex_go_final_diploma.Crypto.Aead.{encrypt_with_ad, split_at}
use yandex_go_final_diploma.Crypto.Lists.{split_at-append}
use yandex_go_final_diploma.Crypto.Examples.Padded.{padded, zeros, no_entropy}
use yandex_go_final_diploma.Client.Errors.{ClientErr, unavailable, should_fallback_offline}
use yandex_go_final_diploma.Client.Local.Secrets as Local
use yandex_go_final_diploma.Client.Local.Outbox as Outbox
use yandex_go_final_diploma.Client.Device.{
  next_version, ServerClient, Json, run_local, run_remote, access_token,
}
use yandex_go_final_diploma.Client.Replay.{attempt}
use yandex_go_final_diploma.Client.Replay.Recorded.{created, updated, deleted, recorded, noting}
use yandex_go_final_diploma.Client.Secrets.{
  Env, Tiers, Sealed, Draws, create_version, check_index_size, ciphered, vault_context,
  encrypt_tiers, cache_created, cache_full_secret,
}
use yandex_go_final_diploma.Client.Secrets.Scenarios.{
  outbox_create, outbox_update, outbox_delete, create_offline, update_offline, delete_offline,
  created_with, refused_with, changed_with, create_typed, update_typed, delete_secret,
}
use yandex_go_final_diploma.Client.Secrets.Answers.{recording, Durable}
use yandex_go_final_diploma.Client.Secrets.Sealing.{SealedFrom}
use yandex_go_final_diploma.Client.Secrets.Durable.{update-Durable, delete-Durable, create-Durable}
use yandex_go_final_diploma.Client.Secrets.Loading.{is_dirty, load_indexes, load_indexes-spares}
use yandex_go_final_diploma.Client.Examples.Data.{a_device, tables}

abbrev away : {A : Type 0} → Exec ℕ ClientErr A
away n = (err unavailable, n)

abbrev no_server : ServerClient ℕ
no_server = record {
  check_freshness = λ _. away;
  list_vaults = λ _. away;
  list_secret_rows = λ _ _. away;
  list_secret_index = λ _ _. away;
  get_secret_payload = λ _ _. away;
  create_secret = λ _ _ _ _ _ _ _. away;
  update_secret = λ _ _ _ _ _ _. away;
  delete_secret = λ _ _ _. away;
}

-- Three strings of bytes as one, and back.
abbrev packed : Sealed → Bytes
packed s = (length s.enc_row ∷ s.enc_row) ++ ((length s.enc_index ∷ s.enc_index) ++ s.enc_payload)

abbrev unpacked_rest : Bytes → Option (Bytes × Bytes) → Option Sealed
unpacked_rest row none = none
unpacked_rest row (some (index, payload)) =
    some (record { enc_row = row; enc_index = index; enc_payload = payload })

abbrev unpacked_row : Option (Bytes × Bytes) → Option Sealed
unpacked_row none = none
unpacked_row (some (row, [])) = none
unpacked_row (some (row, n ∷ rest)) = unpacked_rest row (split_at n rest)

abbrev unpacked : Bytes → Option Sealed
unpacked [] = none
unpacked (n ∷ rest) = unpacked_row (split_at n rest)

unpacked-packed : (s : Sealed) → unpacked (packed s) ≡ some s
unpacked-packed s = rw (
  split_at-append (length s.enc_row) s.enc_row ((length s.enc_index ∷ s.enc_index) ++ s.enc_payload)
      refl,
  split_at-append (length s.enc_index) s.enc_index s.enc_payload refl,
)

abbrev mapped : {A : Type 0} → (Sealed → A) → Option Sealed → Option A
mapped f none = none
mapped f (some s) = some (f s)

-- Bodies about the secret "s1" in the vault "v1".
abbrev some_json : Json
some_json = record {
  creates = record {
    put = λ p.
        packed
          (record { enc_row = p.enc_row; enc_index = p.enc_index; enc_payload = p.enc_payload });
    get = λ b. mapped (outbox_create "s1" "v1" 1) (unpacked b);
  };
  updates = record {
    put = λ p.
        packed
          (record { enc_row = p.enc_row; enc_index = p.enc_index; enc_payload = p.enc_payload });
    get = λ b. mapped (outbox_update "s1" "v1" 1 2) (unpacked b);
  };
  deletes = record { put = λ _. []; get = λ _. some (outbox_delete "s1" "v1" 2) };
  uploads = record { put = λ _. []; get = λ _. none };
}

abbrev an_env : Env ℕ
an_env = record {
  server = no_server;
  aead = padded;
  json = some_json;
  vault_keys = λ _. some (zeros 32);
  decimal = λ _. "2";
  utf8 = λ _. [];
}

abbrev a_text : Tiers
a_text = record { row = 1 ∷ []; index = 2 ∷ []; payload = 3 ∷ [] }

abbrev no_draws : Draws
no_draws = record { for_row = no_entropy; for_index = no_entropy; for_payload = no_entropy }

update_reported :
    (update_typed (recording an_env) no_draws "v1" "s1" 2 1 a_text (a_device (0, []))).0 ≡ ok none
unfolding update_typed vault_context refuse_if access_token encrypt_tiers ciphered encrypt_with_ad
    check_index_size padded recorded noting run_remote attempt changed_with refused_with
    should_fallback_offline update_offline cache_full_secret run_local Local.upsert_secret_row
    Local.set_secret_index Local.set_secret_payload Outbox.enqueue_outbox
update_reported = refl

update-Durable_example :
    (s : Sealed) × SealedFrom an_env no_draws "v1" "s1" (next_version 2) a_text s
    × Durable some_json
        (updated "s1" 2 s.enc_row s.enc_index s.enc_payload)
        (update_typed (recording an_env) no_draws "v1" "s1" 2 1 a_text (a_device (0, []))).1
update-Durable_example =
    update-Durable an_env no_draws "v1" "s1" 2 1 a_text
      (λ s. ap (mapped (outbox_update "s1" "v1" 1 2)) (unpacked-packed s)) (a_device (0, []))
      update_reported

delete_reported : (delete_secret (recording an_env) "v1" "s1" 2 (a_device (0, []))).0 ≡ ok none
unfolding delete_secret vault_context refuse_if access_token recorded noting run_remote attempt
    changed_with refused_with should_fallback_offline delete_offline run_local Outbox.enqueue_outbox
    Local.delete_secret
delete_reported = refl

delete-Durable_example :
    Durable some_json
      (deleted "s1" 2)
      (delete_secret (recording an_env) "v1" "s1" 2 (a_device (0, []))).1
delete-Durable_example = delete-Durable an_env "v1" "s1" 2 refl (a_device (0, [])) delete_reported

create_reported :
    (create_typed (recording an_env) no_draws "s1" "v1" 1 a_text (a_device (0, []))).0 ≡ ok "s1"
unfolding create_typed vault_context refuse_if access_token encrypt_tiers ciphered encrypt_with_ad
    check_index_size padded recorded noting run_remote attempt created_with should_fallback_offline
    create_offline cache_created run_local Local.upsert_secret_row Outbox.enqueue_outbox
create_reported = refl

create-Durable_example :
    (s : Sealed) × SealedFrom an_env no_draws "v1" "s1" create_version a_text s
    × Durable some_json
        (created "s1" "v1" 1 s.enc_row s.enc_index s.enc_payload)
        (create_typed (recording an_env) no_draws "s1" "v1" 1 a_text (a_device (0, []))).1
create-Durable_example =
    create-Durable an_env no_draws "s1" "v1" 1 a_text
      (λ s. ap (mapped (outbox_create "s1" "v1" 1)) (unpacked-packed s)) (a_device (0, [])) "s1"
      create_reported

abbrev an_index : ServerClient ℕ
an_index = record no_server {
  list_secret_index = λ _ _ n. (ok (record { id = "s1"; version = 2; enc_index = 9 ∷ [] } ∷ []), n);
}

s1_dirty : is_dirty "s1" tables ≡ true
unfolding is_dirty Local.find_secret find
s1_dirty = refl

load_indexes-spares_example :
    Local.find_secret "s1" (load_indexes an_index "v1" (a_device 0)).1.local
    ≡ Local.find_secret "s1" tables
load_indexes-spares_example = load_indexes-spares "s1" an_index "v1" (a_device 0) s1_dirty
