-- ===== src/Server/Secrets.antt =====
-- internal/server/usecase/secret: the scenarios on secrets.
pub mod Refines
pub mod Spec
pub mod Decides
pub mod Found
pub mod Locking
pub mod History
pub mod Created
pub mod Changes
pub mod Growth
pub mod Stale
pub mod Reading
pub mod Isolation
pub mod Present
use yandex_go_final_diploma.Prelude.{
  ℕ, String, Bool, true, false, not, none, List, [], ◌∷◌, map, ◌==◌, str_eq, if◌then◌else◌,
}
use yandex_go_final_diploma.Exec.{Exec, pure, refuse_if, ◌>>=◌, ◌>>◌}
use yandex_go_final_diploma.Server.Domain.{Bytes, Secret, SecretType, type_binary}
use yandex_go_final_diploma.Server.Errors.{
  Err, secret, conflict, SecretErr, empty_enc_row, empty_enc_index, vault_not_found, empty_blob_ref,
  not_binary_secret,
}
use yandex_go_final_diploma.Server.External.{External}
use yandex_go_final_diploma.Server.Store.{Action}
use yandex_go_final_diploma.Server.Tx.{Ctx, Runner, q, do_tx}
use yandex_go_final_diploma.Server.Repo.Secrets as Repo
use yandex_go_final_diploma.Server.Repo.Secrets.{not_found}

pub record CreateParams : Type 0 where
  pub user_id : String
  pub vault_id : String
  pub secret_id : String
  pub type : SecretType
  pub enc_row : Bytes
  pub enc_index : Bytes
  pub enc_payload : Bytes

pub record UpdateParams : Type 0 where
  pub user_id : String
  pub secret_id : String
  pub base_version : ℕ
  pub enc_row : Bytes
  pub enc_index : Bytes
  pub enc_payload : Bytes

pub record DeleteParams : Type 0 where
  pub user_id : String
  pub secret_id : String
  pub base_version : ℕ

pub record AttachBlobParams : Type 0 where
  pub user_id : String
  pub secret_id : String
  pub base_version : ℕ
  pub blob_ref : String
  pub blob_size : ℕ

pub record Row : Type 0 where
  pub id : String
  pub type : SecretType
  pub version : ℕ
  pub enc_row : Bytes

pub record IndexItem : Type 0 where
  pub id : String
  pub version : ℕ
  pub enc_index : Bytes

pub record Payload : Type 0 where
  pub id : String
  pub type : SecretType
  pub version : ℕ
  pub enc_payload : Bytes

-- `len(b) == 0`
abbrev pub is_empty : Bytes → Bool
is_empty [] = true
is_empty (b ∷ bs) = false

abbrev pub is_empty_text : String → Bool
is_empty_text s = str_eq s ""

-- The checks under the row's lock that `UpdateSecret` and `DeleteSecret` share.
unfoldable pub check_current : {S : Type 0} → ℕ → Secret → Exec S Err (Unit {0})
check_current base_version current = do
  refuse_if current.deleted not_found
  refuse_if (not (current.version == base_version)) (conflict current)

module _ {S : Type 0} (x : External) (q : Runner S) where
  -- The bodies of the transactions, over the repositories in the transaction.
  unfoldable pub create_body : CreateParams → Exec S Err String
  create_body p = do
    owner ← Repo.is_owner x q p.vault_id p.user_id
    refuse_if (not owner) (secret vault_not_found)
    created ← Repo.create x q (record {
      id = p.secret_id;
      vault_id = p.vault_id;
      type = p.type;
      enc_row = p.enc_row;
      enc_index = p.enc_index;
      enc_payload = p.enc_payload;
      blob_ref = none;
      blob_size = none;
      version = 0;
      deleted = false;
    })
    Repo.bump_vault_version x q p.vault_id
    pure created.id

  unfoldable pub update_body : UpdateParams → Exec S Err ℕ
  update_body p = do
    current ← Repo.get_for_update x q p.secret_id p.user_id
    check_current p.base_version current
    v ← Repo.update_fields x q p.secret_id p.enc_row p.enc_index p.enc_payload
    Repo.bump_vault_version x q current.vault_id
    pure v

  unfoldable pub delete_body : DeleteParams → Exec S Err ℕ
  delete_body p = do
    current ← Repo.get_for_update x q p.secret_id p.user_id
    check_current p.base_version current
    v ← Repo.soft_delete x q p.secret_id
    Repo.bump_vault_version x q current.vault_id
    pure v

  unfoldable pub attach_body : AttachBlobParams → Exec S Err ℕ
  attach_body p = do
    current ← Repo.get_for_update x q p.secret_id p.user_id
    refuse_if current.deleted not_found
    refuse_if (not (current.type == type_binary)) (secret not_binary_secret)
    refuse_if (not (current.version == p.base_version)) (conflict current)
    v ← Repo.attach_blob x q p.secret_id p.blob_ref p.blob_size
    Repo.bump_vault_version x q current.vault_id
    pure v

module _ (x : External) where
  unfoldable pub create_secret : Ctx → CreateParams → Action String
  create_secret ctx p = do
    refuse_if (is_empty_text p.user_id) (secret SecretErr.empty_user_id)
    refuse_if (is_empty_text p.vault_id) (secret SecretErr.empty_vault_id)
    refuse_if (is_empty_text p.secret_id) (secret SecretErr.empty_secret_id)
    refuse_if (is_empty p.enc_row) (secret empty_enc_row)
    refuse_if (is_empty p.enc_index) (secret empty_enc_index)
    do_tx ctx (λ c. create_body x (q c) p)

  unfoldable pub update_secret : Ctx → UpdateParams → Action ℕ
  update_secret ctx p = do
    refuse_if (is_empty_text p.user_id) (secret SecretErr.empty_user_id)
    refuse_if (is_empty_text p.secret_id) (secret SecretErr.empty_secret_id)
    refuse_if (is_empty p.enc_row) (secret empty_enc_row)
    refuse_if (is_empty p.enc_index) (secret empty_enc_index)
    do_tx ctx (λ c. update_body x (q c) p)

  unfoldable pub delete_secret : Ctx → DeleteParams → Action ℕ
  delete_secret ctx p = do
    refuse_if (is_empty_text p.user_id) (secret SecretErr.empty_user_id)
    refuse_if (is_empty_text p.secret_id) (secret SecretErr.empty_secret_id)
    do_tx ctx (λ c. delete_body x (q c) p)

  unfoldable pub attach_blob : Ctx → AttachBlobParams → Action ℕ
  attach_blob ctx p = do
    refuse_if (is_empty_text p.user_id) (secret SecretErr.empty_user_id)
    refuse_if (is_empty_text p.secret_id) (secret SecretErr.empty_secret_id)
    refuse_if (is_empty_text p.blob_ref) (secret empty_blob_ref)
    do_tx ctx (λ c. attach_body x (q c) p)

  unfoldable pub list_row : Ctx → String → String → Action (List Row)
  list_row ctx user_id vault_id = do
    refuse_if (is_empty_text user_id) (secret SecretErr.empty_user_id)
    refuse_if (is_empty_text vault_id) (secret SecretErr.empty_vault_id)
    secrets ← Repo.list_row x (q ctx) vault_id user_id
    pure (
        map (λ s. record { id = s.id; type = s.type; version = s.version; enc_row = s.enc_row })
          secrets)

  unfoldable pub list_index : Ctx → String → String → Action (List IndexItem)
  list_index ctx user_id vault_id = do
    refuse_if (is_empty_text user_id) (secret SecretErr.empty_user_id)
    refuse_if (is_empty_text vault_id) (secret SecretErr.empty_vault_id)
    secrets ← Repo.list_index x (q ctx) vault_id user_id
    pure (map (λ s. record { id = s.id; version = s.version; enc_index = s.enc_index }) secrets)

  unfoldable pub get_payload : Ctx → String → String → Action Payload
  get_payload ctx user_id secret_id = do
    refuse_if (is_empty_text user_id) (secret SecretErr.empty_user_id)
    refuse_if (is_empty_text secret_id) (secret SecretErr.empty_secret_id)
    s ← Repo.get_payload x (q ctx) secret_id user_id
    pure (record { id = s.id; type = s.type; version = s.version; enc_payload = s.enc_payload })
