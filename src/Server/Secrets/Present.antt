-- ===== src/Server/Secrets/Present.antt =====
-- internal/server/usecase/secret: the row that an accepted creation, edit or deletion leaves.
use yandex_go_final_diploma.Prelude.{
  ℕ, ◌+◌, String, true, false, ◌≡◌, refl, ap, ◌∙◌, inl, inr, some, arith, update,
}
use yandex_go_final_diploma.Exec.{ok}
use yandex_go_final_diploma.Server.Domain.{Bytes, SecretType}
use yandex_go_final_diploma.Server.External.{External, UuidLaws}
use yandex_go_final_diploma.Server.Store.{Db, SecretRow, World}
use yandex_go_final_diploma.Server.Store.Queries.{counted_up, find_secret, with_vault_id}
use yandex_go_final_diploma.Server.Store.Lookups.{find_secret-append}
use yandex_go_final_diploma.Server.Tx.{pool}
use yandex_go_final_diploma.Server.Tx.Runs.{Serves-cases}
use yandex_go_final_diploma.Server.Secrets.{
  CreateParams, UpdateParams, DeleteParams, create_secret, update_secret, delete_secret,
}
use yandex_go_final_diploma.Server.Secrets.Spec as Spec
use yandex_go_final_diploma.Server.Secrets.Spec.{new_secret, edited, removed}
use yandex_go_final_diploma.Server.Secrets.Created.{create_secret-cases}
use yandex_go_final_diploma.Server.Secrets.Refines.{Serves-create_secret}
use yandex_go_final_diploma.Server.Secrets.Locking.{update_secret-Replaced, delete_secret-Replaced}

-- The secret is there, with a row of a kind.
pub record Present (x : External) (secret_id : String) (P : SecretRow → Type 0) (d : Db)
    : Type 0 where
  pub sid : ℕ
  pub row : SecretRow
  pub parsed : x.parse_uuid secret_id ≡ some sid
  pub has_row : find_secret sid d ≡ some row
  pub is : P row

abbrev pub HasTiers : Bytes → Bytes → Bytes → SecretRow → Type 0
HasTiers enc_row enc_index enc_payload r =
    (r.enc_row ≡ enc_row) × (r.enc_index ≡ enc_index) × (r.enc_payload ≡ enc_payload)

abbrev pub IsNew : External → String → SecretType → Bytes → Bytes → Bytes → SecretRow → Type 0
IsNew x vault_id type enc_row enc_index enc_payload r =
    (x.parse_uuid vault_id ≡ some r.vault_id)
    × (r.type ≡ type)
    × (r.version ≡ 1)
    × (r.deleted ≡ false)
    × HasTiers enc_row enc_index enc_payload r

abbrev pub IsEdited : ℕ → Bytes → Bytes → Bytes → SecretRow → Type 0
IsEdited base_version enc_row enc_index enc_payload r =
    (r.version ≡ base_version + 1) × (r.deleted ≡ false) × HasTiers enc_row enc_index enc_payload r

abbrev pub IsRemoved : ℕ → SecretRow → Type 0
IsRemoved base_version r = (r.version ≡ base_version + 1) × (r.deleted ≡ true)

module _ (x : External) where
  spec_create-Present :
      (p : CreateParams) (d : Db) (id : String)
      → (Spec.create_secret x p d).0 ≡ ok id
      → Present x p.secret_id
          (IsNew x p.vault_id p.type p.enc_row p.enc_index p.enc_payload)
          (Spec.create_secret x p d).1
  unfolding new_secret
  spec_create-Present p d id h = elim (create_secret-cases x p d) [
    | inl (e, _, s) ↦ ground (arith, h, s)
    | inr (t, inl (e, s)) ↦ ground (arith, h, s)
    | inr (t, inr (sid, parsed, absent, s)) ↦ rw s (record {
      sid = sid;
      row = new_secret p sid t.vid d;
      parsed = parsed;
      has_row =
          find_secret-append sid d (new_secret p sid t.vid d)
            (update (with_vault_id t.vid) counted_up d.vaults)
          ∙ rw absent (ground arith);
      is = (t.parsed, refl, refl, refl, (refl, refl, refl));
    })
  ]

module _ (x : External) (laws : UuidLaws x) where
  pub create_secret-Present :
      (p : CreateParams) (w : World) (id : String)
      → (create_secret x pool p w).0 ≡ ok id
      → Present x p.secret_id
          (IsNew x p.vault_id p.type p.enc_row p.enc_index p.enc_payload)
          (create_secret x pool p w).1.store
  create_secret-Present p w id h = elim (Serves-cases (Serves-create_secret x p) w) [
    | inl (e, _, f, _) ↦ cc
    | inr (f, s) ↦ rw s (spec_create-Present x p w.store id (cc))
  ]

  pub update_secret-Present :
      (p : UpdateParams) (w : World) (n : ℕ)
      → (update_secret x pool p w).0 ≡ ok n
      → Present x p.secret_id
          (IsEdited p.base_version p.enc_row p.enc_index p.enc_payload)
          (update_secret x pool p w).1.store
  update_secret-Present p w n h =
      let (f, live, base, next, wrote) = update_secret-Replaced x laws p w n h in
      record {
        sid = f.sid;
        row = edited p f.row;
        parsed = f.parsed;
        has_row = wrote.becomes;
        is = (ap (λ (v : ℕ). v + 1) base, live, (refl, refl, refl));
      }

  pub delete_secret-Present :
      (p : DeleteParams) (w : World) (n : ℕ)
      → (delete_secret x pool p w).0 ≡ ok n
      → Present x p.secret_id (IsRemoved p.base_version) (delete_secret x pool p w).1.store
  delete_secret-Present p w n h =
      let (f, live, base, next, wrote) = delete_secret-Replaced x laws p w n h in
      record {
        sid = f.sid;
        row = removed f.row;
        parsed = f.parsed;
        has_row = wrote.becomes;
        is = (ap (λ (v : ℕ). v + 1) base, refl);
      }
