-- ===== src/Client/Local/Secrets.antt =====
-- localstore/secret_repo.go
use Prim.Native.String.{compare}
use Prim.Native.Nat.{Ordering}
use yandex_go_final_diploma.Prelude.{
  ℕ, String, Bool, true, false, ◌&&◌, not, Option, none, some, List, [], ◌∷◌, ◌++◌, ◌==◌, str_eq,
  if◌then◌else◌, find, select, update,
}
use yandex_go_final_diploma.Exec.{ok}
use yandex_go_final_diploma.Server.Domain.{Bytes}
use yandex_go_final_diploma.Client.Local.{Local, LocalSecret, Statement}

abbrev pub with_id : String → LocalSecret → Bool
with_id id s = str_eq s.id id

unfoldable pub find_secret : String → Local → Option LocalSecret
find_secret id l = find (with_id id) l.secrets

-- ON CONFLICT(id) DO UPDATE: the index and the payload of another version are dropped, and the ones
-- that the call brings are not taken over.
unfoldable pub merged : LocalSecret → LocalSecret → LocalSecret
merged s old =
    let same = old.version == s.version in
    record s {
      id = old.id;
      enc_index = if same then old.enc_index else [];
      enc_payload = if same then old.enc_payload else [];
      index_loaded = if same then old.index_loaded else false;
      payload_loaded = if same then old.payload_loaded else false;
    }

-- The table with the row in place of the one that has its id, or behind the others.
unfoldable pub stored : LocalSecret → Option LocalSecret → List LocalSecret → List LocalSecret
unfolding merged
stored s none rows = rows ++ s ∷ []
stored s (some _) rows = update (with_id s.id) (merged s) rows

unfoldable pub upsert_secret_row : LocalSecret → Statement (Unit {0})
unfolding find_secret stored
upsert_secret_row s l = (ok tt, record l { secrets = stored s (find_secret s.id l) l.secrets })

-- WHERE id = ? AND version = ?
abbrev pub with_version : String → ℕ → LocalSecret → Bool
with_version id version s = str_eq s.id id && s.version == version

unfoldable pub set_secret_payload : String → Bytes → ℕ → Statement (Unit {0})
set_secret_payload id enc_payload version l = (
  ok tt,
  record l {
    secrets =
        update (with_version id version)
          (λ s. record s { enc_payload = enc_payload; payload_loaded = true }) l.secrets;
  },
)

unfoldable pub set_secret_index : String → Bytes → ℕ → Statement (Unit {0})
set_secret_index id enc_index version l = (
  ok tt,
  record l {
    secrets =
        update (with_version id version)
          (λ s. record s { enc_index = enc_index; index_loaded = true }) l.secrets;
  },
)

-- ORDER BY id, byte by byte.
unfoldable pub insert_by_id : {A : Type 0} → (A → String) → A → List A → List A
insert_by_id id a [] = a ∷ []
insert_by_id id a (x ∷ xs) =
    let rest = insert_by_id id a xs in
    elim (compare (id a) (id x)) [ Ordering.gt ↦ x ∷ rest | _ ↦ a ∷ x ∷ xs ]

unfoldable pub order_by_id : {A : Type 0} → (A → String) → List A → List A
unfolding insert_by_id
order_by_id id [] = []
order_by_id id (x ∷ xs) = insert_by_id id x (order_by_id id xs)

abbrev pub shown_in : String → LocalSecret → Bool
shown_in vault_id s = str_eq s.vault_id vault_id && not s.deleted

unfoldable pub list_secrets_by_vault : String → Statement (List LocalSecret)
unfolding order_by_id
list_secrets_by_vault vault_id l =
    (ok (order_by_id (λ s. s.id) (select (shown_in vault_id) l.secrets)), l)

unfoldable pub get_secret : String → Statement (Option LocalSecret)
unfolding find_secret
get_secret id l = (ok (find_secret id l), l)

unfoldable pub delete_secret : String → Statement (Unit {0})
delete_secret id l = (ok tt, record l { secrets = select (λ s. not (with_id id s)) l.secrets })
