-- ===== src/Server/Vaults/Spec.antt =====
-- What the scenarios on vaults promise, as one decision each on the database.
use yandex_go_final_diploma.Prelude.{
  ℕ, ◌+◌, String, false, none, some, List, [], ◌∷◌, ◌++◌, map, select,
}
use yandex_go_final_diploma.Exec.{ok, err}
use yandex_go_final_diploma.Server.Errors.{
  vault, VaultErr, empty_vault_key, empty_enc_name, invalid_uuid, db, unique_violation,
  foreign_key_violation,
}
use yandex_go_final_diploma.Server.External.{External}
use yandex_go_final_diploma.Server.Store.{Db, VaultRow}
use yandex_go_final_diploma.Server.Store.Queries.{find_user, find_vault, order_by}
use yandex_go_final_diploma.Server.Store.Accounts.{owned_vault}
use yandex_go_final_diploma.Server.Repo.Vaults.{Version, to_version}
use yandex_go_final_diploma.Server.Secrets.{is_empty, is_empty_text}
use yandex_go_final_diploma.Server.Vaults.{CreateParams, Tier1}
use yandex_go_final_diploma.Server.Secrets.Spec.{Decision, unless}

unfoldable pub on_user : {A : Type 0} → External → String → (ℕ → Decision A) → Decision A
on_user x user_id k d = elim (x.parse_uuid user_id) [
  | none ↦ (err invalid_uuid, d)
  | some uid ↦ k uid d
]

unfoldable pub to_tier : External → VaultRow → Tier1
to_tier x v = record {
  id = x.uuid_text v.id;
  wrapped_vault_key = v.wrapped_vault_key;
  enc_name = v.enc_name;
  version = v.version;
}

unfoldable pub new_vault : External → CreateParams → ℕ → Db → VaultRow
new_vault x p uid d = record {
  id = x.random_uuid d.seed;
  user_id = uid;
  wrapped_vault_key = p.wrapped_vault_key;
  enc_name = p.enc_name;
  version = 1;
  deleted = false;
  created_at = d.now;
}

-- An id that the database draws twice, or a user who is not there, is an error of the statement.
unfoldable pub insert_vault : External → CreateParams → ℕ → Decision String
unfolding find_vault find_user new_vault
insert_vault x p uid d = elim (find_vault (x.random_uuid d.seed) d) [
  | some _ ↦ (err (db (unique_violation "vaults_pkey")), d)
  | none ↦ elim (find_user uid d) [
    | none ↦ (err (db foreign_key_violation), d)
    | some _ ↦ (
      ok (x.uuid_text (x.random_uuid d.seed)),
      record d { vaults = d.vaults ++ new_vault x p uid d ∷ []; seed = d.seed + 1 },
    )
  ]
]

-- The versions of the user's vaults that are not deleted.
unfoldable pub check_freshness : External → String → Decision (List Version)
unfolding on_user order_by to_version
check_freshness x user_id = unless (is_empty_text user_id) (vault VaultErr.empty_user_id) (
    on_user x user_id (λ uid d.
      (ok (map (to_version x) (order_by (λ v. v.id) (select (owned_vault uid) d.vaults))), d)))

-- What a client needs of each of the user's vaults to open it, oldest vault first.
unfoldable pub list_vaults : External → String → Decision (List Tier1)
unfolding on_user order_by to_tier
list_vaults x user_id = unless (is_empty_text user_id) (vault VaultErr.empty_user_id) (
    on_user x user_id (λ uid d.
      (ok (map (to_tier x) (order_by (λ v. v.created_at) (select (owned_vault uid) d.vaults))), d)))

unfoldable pub create_vault : External → CreateParams → Decision String
unfolding on_user insert_vault
create_vault x p = unless (is_empty_text p.user_id) (vault VaultErr.empty_user_id) (
    unless (is_empty p.wrapped_vault_key) (vault empty_vault_key) (
      unless (is_empty p.enc_name) (vault empty_enc_name) (on_user x p.user_id (insert_vault x p))))
