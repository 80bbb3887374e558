-- ===== src/Server/Secrets/Isolation.antt =====
-- Histories of calls on secrets as the owner of a secret sees them.
use yandex_go_final_diploma.Prelude.{
  ℕ, String, ◌≡◌, ◌≢◌, refl, ◌∙◌, ◌⊎◌, inl, inr, arith, some, List, [], ◌∷◌, ◌++◌, update,
}
use yandex_go_final_diploma.Server.External.{External, UuidLaws}
use yandex_go_final_diploma.Server.Store.{Db, SecretRow, VaultRow, World, Event, Query, Action}
use yandex_go_final_diploma.Server.Store.Queries.{
  counted_up, find_secret, find_vault, with_vault_id,
}
use yandex_go_final_diploma.Server.Store.Lookups.{find_secret-append, find_vault-bump}
use yandex_go_final_diploma.Server.Tx.Runs.{Serves, Serves-cases}
use yandex_go_final_diploma.Server.Secrets.{
  CreateParams, UpdateParams, DeleteParams, AttachBlobParams,
}
use yandex_go_final_diploma.Server.Secrets.Spec
use yandex_go_final_diploma.Server.Secrets.Spec.{
  Decision, write, edited, removed, attached, apply_update, apply_delete, apply_attach,
}
use yandex_go_final_diploma.Server.Secrets.Refines.{
  Serves-create_secret, Serves-update_secret, Serves-delete_secret, Serves-attach_blob,
}
use yandex_go_final_diploma.Server.Secrets.Found.{
  Found, update_secret-cases, delete_secret-cases, attach_blob-cases, write-Wrote,
}
use yandex_go_final_diploma.Server.Secrets.Created.{grown, Target, create_secret-cases}
use yandex_go_final_diploma.Server.Secrets.History.{
  Call, creates, updates, deletes, attaches, after, after_all,
}

-- The secret and its vault stand in the database as given.
abbrev pub Holds : ℕ → SecretRow → VaultRow → Db → Type 0
Holds j r v d = (find_secret j d ≡ some r) × (find_vault r.vault_id d ≡ some v)

-- Who makes a call.
unfoldable pub caller : Call → String
caller (creates p) = p.user_id
caller (updates p) = p.user_id
caller (deletes p) = p.user_id
caller (attaches p) = p.user_id

-- None of the calls is made by this user.
unfoldable pub Strangers : External → ℕ → List (Call × ℕ × List Event) → Type 0
unfolding caller
Strangers x uid [] = Unit
Strangers x uid ((c, _, _) ∷ rest) = (x.parse_uuid (caller c) ≢ some uid) × Strangers x uid rest

module _ (x : External) (j : ℕ) (r : SecretRow) (v : VaultRow) where
  settled-Holds :
      {secret_id user_id : String} {d : Db} (f : Found x secret_id user_id d)
      (change : SecretRow → SecretRow) (d' : Db)
      → ((r : SecretRow) → (change r).id ≡ r.id)
      → x.parse_uuid user_id ≢ some v.user_id
      → (d' ≡ d) ⊎ (d' ≡ write f.sid change f.row d)
      → Holds j r v d
      → Holds j r v d'
  settled-Holds f change d' keeps stranger (inl e) holds = rw e holds
  settled-Holds {d} f change d' keeps stranger (inr e) (has, had) =
      let wrote = write-Wrote f.sid change f.row f.vault d keeps f.has_row f.has_vault in
      let other_vault : r.vault_id ≢ f.row.vault_id =
        λ same. stranger (cc (same, had, f.has_vault, f.owned, f.parsed_user)) in
      let other : j ≢ f.sid = λ same. other_vault (cc (same, has, f.has_row)) in
      rw e (wrote.others j other ∙ has, wrote.other_vaults r.vault_id other_vault ∙ had)

  grown-Holds :
      {vault_id user_id : String} {d : Db} (t : Target x vault_id user_id d) (new : SecretRow)
      → x.parse_uuid user_id ≢ some v.user_id
      → Holds j r v d
      → Holds j r v (grown t.vid new d)
  grown-Holds {d} t new stranger (has, had) =
      let other_vault : t.vid ≢ r.vault_id = λ same. stranger (
        let same_vault : t.vault ≡ v = cc (same, had, t.has_vault) in
        let owner : v.user_id ≡ t.uid = ground (arith, t.owned, same_vault) in
        cc (owner, t.parsed_user)) in
      (
        rw (find_secret-append j d new (update (with_vault_id t.vid) counted_up d.vaults), has),
        rw (find_vault-bump t.vid r.vault_id d (d.secrets ++ new ∷ []))
            (ground (arith, other_vault, had)),
      )

  update_secret-Holds :
      (p : UpdateParams) (d : Db)
      → x.parse_uuid p.user_id ≢ some v.user_id
      → Holds j r v d
      → Holds j r v (Spec.update_secret x p d).1
  unfolding apply_update
  update_secret-Holds p d stranger holds = elim (update_secret-cases x p d) [
    | inl (e, c, s) ↦ rw s holds
    | inr (f, s) ↦ settled-Holds f (edited p) _ (λ r. refl) stranger (ground arith) holds
  ]

  delete_secret-Holds :
      (p : DeleteParams) (d : Db)
      → x.parse_uuid p.user_id ≢ some v.user_id
      → Holds j r v d
      → Holds j r v (Spec.delete_secret x p d).1
  unfolding apply_delete
  delete_secret-Holds p d stranger holds = elim (delete_secret-cases x p d) [
    | inl (e, c, s) ↦ rw s holds
    | inr (f, s) ↦ settled-Holds f removed _ (λ r. refl) stranger (ground arith) holds
  ]

  attach_blob-Holds :
      (p : AttachBlobParams) (d : Db)
      → x.parse_uuid p.user_id ≢ some v.user_id
      → Holds j r v d
      → Holds j r v (Spec.attach_blob x p d).1
  unfolding apply_attach
  attach_blob-Holds p d stranger holds = elim (attach_blob-cases x p d) [
    | inl (e, c, s) ↦ rw s holds
    | inr (f, s) ↦ settled-Holds f (attached p) _ (λ r. refl) stranger (ground arith) holds
  ]

  create_secret-Holds :
      (p : CreateParams) (d : Db)
      → x.parse_uuid p.user_id ≢ some v.user_id
      → Holds j r v d
      → Holds j r v (Spec.create_secret x p d).1
  create_secret-Holds p d stranger holds = elim (create_secret-cases x p d) [
    | inl (e, k, s) ↦ rw s holds
    | inr (t, inl (e, s)) ↦ rw s holds
    | inr (t, inr (sid, e, absent, s)) ↦
        rw s (grown-Holds t (Spec.new_secret p sid t.vid d) stranger holds)
  ]

  Serves-Holds :
      {A : Type 0} {m : Action A} {decide : Query A} (w : World)
      → Serves m decide
      → (Holds j r v w.store → Holds j r v (decide w.store).1)
      → Holds j r v w.store
      → Holds j r v (m w).1.store
  Serves-Holds w serves keeps holds = elim (Serves-cases serves w) [
    | inl (e, _, _, s) ↦ rw s holds
    | inr (_, s) ↦ rw s (keeps holds)
  ]

module _ (x : External) (laws : UuidLaws x) (j : ℕ) (r : SecretRow) (v : VaultRow) where
  after-Holds :
      (c : Call) (now : ℕ) (events : List Event) (d : Db)
      → x.parse_uuid (caller c) ≢ some v.user_id
      → Holds j r v d
      → Holds j r v (after x c now events d)
  unfolding after caller find_secret find_vault
  after-Holds (creates p) now events d stranger =
      Serves-Holds x j r v _ (Serves-create_secret x p) (create_secret-Holds x j r v p _ stranger)
  after-Holds (updates p) now events d stranger =
      Serves-Holds x j r v _ (Serves-update_secret x laws p)
        (update_secret-Holds x j r v p _ stranger)
  after-Holds (deletes p) now events d stranger =
      Serves-Holds x j r v _ (Serves-delete_secret x laws p)
        (delete_secret-Holds x j r v p _ stranger)
  after-Holds (attaches p) now events d stranger =
      Serves-Holds x j r v _ (Serves-attach_blob x laws p) (attach_blob-Holds x j r v p _ stranger)

  -- A secret and its vault are exactly as they were behind any history of calls of users who do not
  -- own the vault.
  pub after_all-Holds :
      (calls : List (Call × ℕ × List Event)) (d : Db)
      → Strangers x v.user_id calls
      → Holds j r v d
      → Holds j r v (after_all x calls d)
  unfolding after_all Strangers
  after_all-Holds [] d strangers holds = holds
  after_all-Holds ((c, now, events) ∷ rest) d (stranger, strangers) holds =
      after_all-Holds rest (after x c now events d) strangers
        (after-Holds c now events d stranger holds)
