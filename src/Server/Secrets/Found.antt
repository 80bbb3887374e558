-- ===== src/Server/Secrets/Found.antt =====
-- What a scenario that gets past its checks has found, and what its write changes.
use yandex_go_final_diploma.Prelude.{
  ℕ, String, Bool, true, false, ◌≡◌, ◌≢◌, refl, ◌⊎◌, inl, inr, some, arith, Option-cases,
}
use yandex_go_final_diploma.Exec.{Result, err}
use yandex_go_final_diploma.Server.Errors.{Err, conflict, invalid_uuid}
use yandex_go_final_diploma.Server.External.{External}
use yandex_go_final_diploma.Server.Store.{Db, SecretRow, VaultRow}
use yandex_go_final_diploma.Server.Store.Queries.{counted_up, find_secret, find_vault}
use yandex_go_final_diploma.Server.Store.Lookups.{find_secret-update, find_vault-bump}
use yandex_go_final_diploma.Server.Repo.Secrets.{not_found}
use yandex_go_final_diploma.Server.Secrets.{UpdateParams, DeleteParams, AttachBlobParams}
use yandex_go_final_diploma.Server.Secrets.Spec
use yandex_go_final_diploma.Server.Secrets.Spec.{
  Decision, unless, owned_secret, on_owned, write, apply_update, apply_delete, apply_attach,
}

pub record Found (x : External) (secret_id user_id : String) (d : Db) : Type 0 where
  pub sid : ℕ
  pub uid : ℕ
  pub row : SecretRow
  pub vault : VaultRow
  pub parsed : x.parse_uuid secret_id ≡ some sid
  pub parsed_user : x.parse_uuid user_id ≡ some uid
  pub has_row : find_secret sid d ≡ some row
  pub has_vault : find_vault row.vault_id d ≡ some vault
  pub owned : vault.user_id ≡ uid

-- A refusal before the row is read, which changes nothing and reports no conflict.
unfoldable pub is_conflict : Err → Bool
is_conflict (conflict s) = true
is_conflict _ = false

abbrev pub Refusal : {A : Type 0} → Db → Result Err A × Db → Type 0
Refusal d s = (e : Err) × (is_conflict e ≡ false) × (s ≡ (err e, d))

owned_secret-cases :
    (sid uid : ℕ) (d : Db) (r : SecretRow) (v : VaultRow)
    → owned_secret sid uid d ≡ some (r, v)
    → (find_secret sid d ≡ some r) × (find_vault r.vault_id d ≡ some v) × (v.user_id ≡ uid)
unfolding owned_secret
owned_secret-cases sid uid d r v h = ground arith

-- A check in front of a decision adds a refusal.
pub past_check :
    {A F : Type 0} {d : Db} {t : F → Result Err A × Db} (b : Bool) (e : Err) (k : Decision A)
    → is_conflict e ≡ false
    → Refusal d (k d) ⊎ ((f : F) × (k d ≡ t f))
    → Refusal d (unless b e k d) ⊎ ((f : F) × (unless b e k d ≡ t f))
unfolding unless
past_check true e s c h = inl (e, c, refl)
past_check false e s c h = h

module _ {A : Type 0} (x : External) where
  pub on_owned-cases :
      (secret_id user_id : String) (k : ℕ → SecretRow → VaultRow → Decision A) (d : Db)
      → Refusal d (on_owned x secret_id user_id k d)
        ⊎ ((f : Found x secret_id user_id d) × (on_owned x secret_id user_id k d
              ≡ k f.sid f.row f.vault d))
  unfolding on_owned is_conflict
  on_owned-cases secret_id user_id k d = elim (Option-cases (x.parse_uuid secret_id)) [
    | inl e ↦ inl (not_found, refl, rw (e, on_owned))
    | inr (sid, e) ↦ elim (Option-cases (x.parse_uuid user_id)) [
      | inl f ↦ inl (invalid_uuid, refl, rw (e, f, on_owned))
      | inr (uid, f) ↦ elim (Option-cases (owned_secret sid uid d)) [
        | inl g ↦ inl (not_found, refl, rw (e, f, g, on_owned))
        | inr ((r, v), g) ↦
            let found = owned_secret-cases sid uid d r v g in
            inr (
              record {
                sid = sid;
                uid = uid;
                row = r;
                vault = v;
                parsed = e;
                parsed_user = f;
                has_row = found.0;
                has_vault = found.1;
                owned = found.2;
              },
              rw (e, f, g, on_owned),
            )
      ]
    ]
  ]

module _ (x : External) where
  -- An edit refuses before it reads the row, or decides on the row that it found.
  pub update_secret-cases :
      (p : UpdateParams) (d : Db)
      → Refusal d (Spec.update_secret x p d)
        ⊎ ((f : Found x p.secret_id p.user_id d) × (Spec.update_secret x p d
              ≡ apply_update x p f.sid f.row f.vault d))
  unfolding Spec.update_secret is_conflict
  update_secret-cases p d = past_check _ _ _ refl (
      past_check _ _ _ refl (
        past_check _ _ _ refl
          (past_check _ _ _ refl (on_owned-cases x p.secret_id p.user_id (apply_update x p) d))))

  pub delete_secret-cases :
      (p : DeleteParams) (d : Db)
      → Refusal d (Spec.delete_secret x p d)
        ⊎ ((f : Found x p.secret_id p.user_id d) × (Spec.delete_secret x p d
              ≡ apply_delete x p f.sid f.row f.vault d))
  unfolding Spec.delete_secret is_conflict
  delete_secret-cases p d =
      past_check _ _ _ refl
        (past_check _ _ _ refl (on_owned-cases x p.secret_id p.user_id (apply_delete x p) d))

  pub attach_blob-cases :
      (p : AttachBlobParams) (d : Db)
      → Refusal d (Spec.attach_blob x p d)
        ⊎ ((f : Found x p.secret_id p.user_id d) × (Spec.attach_blob x p d
              ≡ apply_attach x p f.sid f.row f.vault d))
  unfolding Spec.attach_blob is_conflict
  attach_blob-cases p d = past_check _ _ _ refl (
      past_check _ _ _ refl
        (past_check _ _ _ refl (on_owned-cases x p.secret_id p.user_id (apply_attach x p) d)))

-- One secret is replaced, its vault counts one up, and nothing else changes.
pub record Wrote (d d' : Db) (sid : ℕ) (r r' : SecretRow) (v : VaultRow) : Type 0 where
  pub was : find_secret sid d ≡ some r
  pub becomes : find_secret sid d' ≡ some r'
  pub others : (j : ℕ) → j ≢ sid → find_secret j d' ≡ find_secret j d
  pub had_vault : find_vault r.vault_id d ≡ some v
  pub vault_counts : find_vault r.vault_id d' ≡ some (counted_up v)
  pub other_vaults : (j : ℕ) → j ≢ r.vault_id → find_vault j d' ≡ find_vault j d
  pub users : d'.users ≡ d.users
  pub recovery_codes : d'.recovery_codes ≡ d.recovery_codes

pub write-Wrote :
    (sid : ℕ) (f : SecretRow → SecretRow) (r : SecretRow) (v : VaultRow) (d : Db)
    → ((s : SecretRow) → (f s).id ≡ s.id)
    → find_secret sid d ≡ some r
    → find_vault r.vault_id d ≡ some v
    → Wrote d (write sid f r d) sid r (f r) v
unfolding write
write-Wrote sid f r v d keeps e g = record {
  was = e;
  becomes = rw (find_secret-update f keeps sid sid) (ground arith);
  others = λ j n. rw (find_secret-update f keeps sid j) (ground arith);
  had_vault = g;
  vault_counts = rw (find_vault-bump r.vault_id r.vault_id d) (ground arith);
  other_vaults = λ j n. rw (find_vault-bump r.vault_id j d) (ground arith);
  users = refl;
  recovery_codes = refl;
}
