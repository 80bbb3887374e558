-- ===== src/Server/Store/Queries.antt =====
-- infra/postgres/queries, as the functions of infra/postgres/gen run them: one function for each
-- statement. The ids of a table are unique (its primary key), so `WHERE id = $1` picks one row; a
-- statement that reports an error writes nothing. Times other than `created_at` are left out,
-- nothing reads them.
use yandex_go_final_diploma.Prelude.{
  ℕ, ◌+◌, ◌-◌, ◌^◌, String, Bool, true, false, ◌&&◌, not, Option, none, some, List, [], ◌∷◌, ◌++◌,
  leb, ◌==◌, if◌then◌else◌, find, select, update,
}
use yandex_go_final_diploma.Exec.{ok, err}
use yandex_go_final_diploma.Server.Domain.{Bytes, SecretType}
use yandex_go_final_diploma.Server.Errors.{
  db, no_rows, unique_violation, foreign_key_violation, out_of_range,
}
use yandex_go_final_diploma.Server.Store.{Db, UserRow, VaultRow, SecretRow, Query}

-- The last value of a `bigint`; counting past it is an error of the statement.
abbrev pub max_bigint : ℕ
max_bigint = 2 ^ 63 - 1

unfoldable pub insert_by : {A : Type 0} → (A → ℕ) → A → List A → List A
insert_by key a [] = a ∷ []
insert_by key a (x ∷ xs) =
    let rest = insert_by key a xs in if leb (key a) (key x) then a ∷ x ∷ xs else x ∷ rest

-- ORDER BY key; rows with equal keys stay in table order.
unfoldable pub order_by : {A : Type 0} → (A → ℕ) → List A → List A
unfolding insert_by
order_by key [] = []
order_by key (x ∷ xs) = insert_by key x (order_by key xs)

abbrev pub with_secret_id : ℕ → SecretRow → Bool
with_secret_id id r = r.id == id

abbrev pub with_vault_id : ℕ → VaultRow → Bool
with_vault_id id r = r.id == id

abbrev pub with_user_id : ℕ → UserRow → Bool
with_user_id id r = r.id == id

-- SET version = version + 1
abbrev pub counted_up : VaultRow → VaultRow
counted_up v = record v { version = v.version + 1 }

unfoldable pub find_secret : ℕ → Db → Option SecretRow
find_secret id d = find (with_secret_id id) d.secrets

unfoldable pub find_vault : ℕ → Db → Option VaultRow
find_vault id d = find (with_vault_id id) d.vaults

unfoldable pub find_user : ℕ → Db → Option UserRow
find_user id d = find (with_user_id id) d.users

-- JOIN vaults v ON v.id = s.vault_id ... AND v.user_id = user_id
unfoldable pub vault_of_user : ℕ → ℕ → Db → Bool
vault_of_user vault_id user_id d = elim (find_vault vault_id d) [
  | none ↦ false
  | some v ↦ v.user_id == user_id
]

unfoldable pub create_secret : ℕ → ℕ → SecretType → Bytes → Bytes → Bytes → Query SecretRow
unfolding find_secret find_vault
create_secret id vault_id type enc_row enc_index enc_payload d = elim (find_secret id d) [
  | some _ ↦ (err (db (unique_violation "secrets_pkey")), d)
  | none ↦ elim (find_vault vault_id d) [
    | none ↦ (err (db foreign_key_violation), d)
    | some _ ↦
        let r : SecretRow = record {
          id = id;
          vault_id = vault_id;
          type = type;
          enc_row = enc_row;
          enc_index = enc_index;
          enc_payload = enc_payload;
          blob_ref = none;
          blob_size = none;
          version = 1;
          deleted = false;
          created_at = d.now;
        } in
        (ok r, record d { secrets = d.secrets ++ r ∷ [] })
  ]
]

abbrev pub listed : ℕ → ℕ → Db → SecretRow → Bool
listed vault_id user_id d r =
    r.vault_id == vault_id && vault_of_user r.vault_id user_id d && not r.deleted

-- ListSecretRows and ListSecretIndex pick the same rows and differ in the columns.
unfoldable pub list_secrets : ℕ → ℕ → Query (List SecretRow)
list_secrets vault_id user_id d =
    (ok (order_by (λ r. r.created_at) (select (listed vault_id user_id d) d.secrets)), d)

unfoldable pub get_secret_payload : ℕ → ℕ → Query SecretRow
unfolding find_secret vault_of_user
get_secret_payload id user_id d = elim (find_secret id d) [
  | none ↦ (err (db no_rows), d)
  | some r ↦
      if vault_of_user r.vault_id user_id d && not r.deleted
      then (ok r, d)
      else (err (db no_rows), d)
]

unfoldable pub get_secret_for_update : ℕ → ℕ → Query SecretRow
unfolding find_secret vault_of_user
get_secret_for_update id user_id d = elim (find_secret id d) [
  | none ↦ (err (db no_rows), d)
  | some r ↦ if vault_of_user r.vault_id user_id d then (ok r, d) else (err (db no_rows), d)
]

unfoldable pub update_secret_fields : ℕ → Bytes → Bytes → Bytes → Query ℕ
unfolding find_secret
update_secret_fields id enc_row enc_index enc_payload d = elim (find_secret id d) [
  | none ↦ (err (db no_rows), d)
  | some s ↦ if leb max_bigint s.version then (err (db out_of_range), d) else (
    ok (s.version + 1),
    record d {
      secrets =
          update (with_secret_id id)
            (λ r. record r {
              enc_row = enc_row;
              enc_index = enc_index;
              enc_payload = enc_payload;
              version = r.version + 1;
            })
            d.secrets;
    },
  )
]

unfoldable pub soft_delete_secret : ℕ → Query ℕ
unfolding find_secret
soft_delete_secret id d = elim (find_secret id d) [
  | none ↦ (err (db no_rows), d)
  | some s ↦ if leb max_bigint s.version then (err (db out_of_range), d) else (
    ok (s.version + 1),
    record d {
      secrets =
          update (with_secret_id id) (λ r. record r { deleted = true; version = r.version + 1 })
            d.secrets;
    },
  )
]

unfoldable pub attach_blob : ℕ → String → ℕ → Query ℕ
unfolding find_secret
attach_blob id blob_ref blob_size d = elim (find_secret id d) [
  | none ↦ (err (db no_rows), d)
  | some s ↦ (
    ok s.version,
    record d {
      secrets =
          update (with_secret_id id)
            (λ r. record r { blob_ref = some blob_ref; blob_size = some blob_size }) d.secrets;
    },
  )
]

-- `:exec`: that no row was there is no error.
unfoldable pub bump_vault_version : ℕ → Query (Unit {0})
unfolding find_vault
bump_vault_version id d = elim (find_vault id d) [
  | none ↦ (ok tt, d)
  | some v ↦
      if leb max_bigint v.version
      then (err (db out_of_range), d)
      else (ok tt, record d { vaults = update (with_vault_id id) counted_up d.vaults })
]
