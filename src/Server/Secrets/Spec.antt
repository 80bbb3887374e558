-- ===== src/Server/Secrets/Spec.antt =====
-- What the scenarios on secrets promise, as one decision each on the database: no transaction, no
-- statement, no failure of the environment.
use yandex_go_final_diploma.Prelude.{
  ℕ, ◌+◌, String, Bool, true, false, ◌||◌, not, Option, none, some, [], ◌∷◌, ◌++◌, ◌==◌, leb,
  if◌then◌else◌, update,
}
use yandex_go_final_diploma.Exec.{Result, ok, err}
use yandex_go_final_diploma.Server.Domain.{type_binary}
use yandex_go_final_diploma.Server.Errors.{
  Err, secret, conflict, db, SecretErr, empty_enc_row, empty_enc_index, empty_blob_ref,
  vault_not_found, not_binary_secret, invalid_uuid, unique_violation, out_of_range,
}
use yandex_go_final_diploma.Server.External.{External}
use yandex_go_final_diploma.Server.Store.{Db, SecretRow, VaultRow}
use yandex_go_final_diploma.Server.Store.Queries.{
  max_bigint, counted_up, find_secret, find_vault, with_secret_id, with_vault_id,
}
use yandex_go_final_diploma.Server.Store.Accounts.{owned_vault}
use yandex_go_final_diploma.Server.Repo.Secrets.{not_found, to_secret}
use yandex_go_final_diploma.Server.Secrets.{
  CreateParams, UpdateParams, DeleteParams, AttachBlobParams, is_empty, is_empty_text,
}

-- The secret with this id, with its vault, if the vault is the user's.
unfoldable pub owned_secret : ℕ → ℕ → Db → Option (SecretRow × VaultRow)
unfolding find_secret find_vault
owned_secret sid uid d = elim (find_secret sid d) [
  | none ↦ none
  | some r ↦ elim (find_vault r.vault_id d) [
    | none ↦ none
    | some v ↦ if v.user_id == uid then some (r, v) else none
  ]
]

-- The change of one secret; its vault counts one up.
unfoldable pub write : ℕ → (SecretRow → SecretRow) → SecretRow → Db → Db
write sid f r d = record d {
  secrets = update (with_secret_id sid) f d.secrets;
  vaults = update (with_vault_id r.vault_id) counted_up d.vaults;
}

abbrev pub Decision : Type 0 → Type 0
Decision A = Db → Result Err A × Db

-- A check in front of a decision.
unfoldable pub unless : {A : Type 0} → Bool → Err → Decision A → Decision A
unless refused e k d = if refused then (err e, d) else k d

-- The secret, or the refusal that hides whether it exists.
unfoldable pub on_owned :
    {A : Type 0} → External → String → String → (ℕ → SecretRow → VaultRow → Decision A) → Decision A
unfolding owned_secret
on_owned x secret_id user_id k d = elim (x.parse_uuid secret_id) [
  | none ↦ (err not_found, d)
  | some sid ↦ elim (x.parse_uuid user_id) [
    | none ↦ (err invalid_uuid, d)
    | some uid ↦ elim (owned_secret sid uid d) [
      | none ↦ (err not_found, d)
      | some (r, v) ↦ k sid r v d
    ]
  ]
]

-- The rows that an edit, a deletion and an attachment leave.
abbrev pub edited : UpdateParams → SecretRow → SecretRow
edited p r = record r {
  enc_row = p.enc_row;
  enc_index = p.enc_index;
  enc_payload = p.enc_payload;
  version = r.version + 1;
}

abbrev pub removed : SecretRow → SecretRow
removed r = record r { deleted = true; version = r.version + 1 }

abbrev pub attached : AttachBlobParams → SecretRow → SecretRow
attached p r = record r { blob_ref = some p.blob_ref; blob_size = some p.blob_size }

unfoldable pub apply_update : External → UpdateParams → ℕ → SecretRow → VaultRow → Decision ℕ
apply_update x p sid r v d =
    if r.deleted
    then (err not_found, d)
    else if not (r.version == p.base_version)
    then (err (conflict (to_secret x r)), d)
    else if leb max_bigint r.version || leb max_bigint v.version
    then (err (db out_of_range), d)
    else (ok (r.version + 1), write sid (edited p) r d)

unfoldable pub update_secret : External → UpdateParams → Decision ℕ
unfolding on_owned apply_update
update_secret x p = unless (is_empty_text p.user_id) (secret SecretErr.empty_user_id) (
    unless (is_empty_text p.secret_id) (secret SecretErr.empty_secret_id) (
      unless (is_empty p.enc_row) (secret empty_enc_row) (
        unless (is_empty p.enc_index) (secret empty_enc_index)
          (on_owned x p.secret_id p.user_id (apply_update x p)))))

unfoldable pub apply_delete : External → DeleteParams → ℕ → SecretRow → VaultRow → Decision ℕ
apply_delete x p sid r v d =
    if r.deleted
    then (err not_found, d)
    else if not (r.version == p.base_version)
    then (err (conflict (to_secret x r)), d)
    else if leb max_bigint r.version || leb max_bigint v.version
    then (err (db out_of_range), d)
    else (ok (r.version + 1), write sid removed r d)

unfoldable pub delete_secret : External → DeleteParams → Decision ℕ
unfolding on_owned apply_delete
delete_secret x p = unless (is_empty_text p.user_id) (secret SecretErr.empty_user_id) (
    unless (is_empty_text p.secret_id) (secret SecretErr.empty_secret_id)
      (on_owned x p.secret_id p.user_id (apply_delete x p)))

-- The version of the secret stays.
unfoldable pub apply_attach : External → AttachBlobParams → ℕ → SecretRow → VaultRow → Decision ℕ
apply_attach x p sid r v d =
    if r.deleted
    then (err not_found, d)
    else if not (r.type == type_binary)
    then (err (secret not_binary_secret), d)
    else if not (r.version == p.base_version)
    then (err (conflict (to_secret x r)), d)
    else if leb max_bigint v.version
    then (err (db out_of_range), d)
    else (ok r.version, write sid (attached p) r d)

unfoldable pub attach_blob : External → AttachBlobParams → Decision ℕ
unfolding on_owned apply_attach
attach_blob x p = unless (is_empty_text p.user_id) (secret SecretErr.empty_user_id) (
    unless (is_empty_text p.secret_id) (secret SecretErr.empty_secret_id) (
      unless (is_empty_text p.blob_ref) (secret empty_blob_ref)
        (on_owned x p.secret_id p.user_id (apply_attach x p))))

-- The row of a new secret.
unfoldable pub new_secret : CreateParams → ℕ → ℕ → Db → SecretRow
new_secret p sid vid d = record {
  id = sid;
  vault_id = vid;
  type = p.type;
  enc_row = p.enc_row;
  enc_index = p.enc_index;
  enc_payload = p.enc_payload;
  blob_ref = none;
  blob_size = none;
  version = 1;
  deleted = false;
  created_at = d.now;
}

unfoldable pub insert_secret : External → CreateParams → ℕ → VaultRow → ℕ → Decision String
unfolding find_secret new_secret
insert_secret x p vid v sid d = elim (find_secret sid d) [
  | some _ ↦ (err (db (unique_violation "secrets_pkey")), d)
  | none ↦ if leb max_bigint v.version then (err (db out_of_range), d) else (
    ok (x.uuid_text sid),
    record d {
      secrets = d.secrets ++ new_secret p sid vid d ∷ [];
      vaults = update (with_vault_id vid) counted_up d.vaults;
    },
  )
]

-- The vault, if it is there and the user's; whose it is otherwise does not show.
unfoldable pub on_vault :
    {A : Type 0} → External → String → String → (ℕ → VaultRow → Decision A) → Decision A
unfolding find_vault
on_vault x vault_id user_id k d = elim (x.parse_uuid vault_id) [
  | none ↦ (err (secret vault_not_found), d)
  | some vid ↦ elim (x.parse_uuid user_id) [
    | none ↦ (err invalid_uuid, d)
    | some uid ↦ elim (find_vault vid d) [
      | none ↦ (err (secret vault_not_found), d)
      | some v ↦ if owned_vault uid v then k vid v d else (err (secret vault_not_found), d)
    ]
  ]
]

unfoldable pub apply_create : External → CreateParams → ℕ → VaultRow → Decision String
unfolding insert_secret
apply_create x p vid v d = elim (x.parse_uuid p.secret_id) [
  | none ↦ (err invalid_uuid, d)
  | some sid ↦ insert_secret x p vid v sid d
]

unfoldable pub create_secret : External → CreateParams → Decision String
unfolding on_vault apply_create
create_secret x p = unless (is_empty_text p.user_id) (secret SecretErr.empty_user_id) (
    unless (is_empty_text p.vault_id) (secret SecretErr.empty_vault_id) (
      unless (is_empty_text p.secret_id) (secret SecretErr.empty_secret_id) (
        unless (is_empty p.enc_row) (secret empty_enc_row) (
          unless (is_empty p.enc_index) (secret empty_enc_index)
            (on_vault x p.vault_id p.user_id (apply_create x p))))))
