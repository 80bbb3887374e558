-- ===== src/Server/Secrets/Growth.antt =====
-- How histories of the scenarios on secrets change the database.
use yandex_go_final_diploma.Prelude.{ℕ, refl, inl, inr, arith, List, [], ◌∷◌}
use yandex_go_final_diploma.Server.External.{External, UuidLaws}
use yandex_go_final_diploma.Server.Store.{Db, Event, Action, Query}
use yandex_go_final_diploma.Server.Tx.Runs.{Serves, Serves-cases}
use yandex_go_final_diploma.Server.Secrets.{
  CreateParams, UpdateParams, DeleteParams, AttachBlobParams,
}
use yandex_go_final_diploma.Server.Secrets.Spec
use yandex_go_final_diploma.Server.Secrets.Spec.{
  Decision, write, edited, removed, attached, apply_update, apply_delete, apply_attach,
  apply_create,
}
use yandex_go_final_diploma.Server.Secrets.Refines.{
  Serves-create_secret, Serves-update_secret, Serves-delete_secret, Serves-attach_blob,
}
use yandex_go_final_diploma.Server.Secrets.Found.{
  update_secret-cases, delete_secret-cases, attach_blob-cases,
}
use yandex_go_final_diploma.Server.Secrets.Created.{create_secret-cases}
use yandex_go_final_diploma.Server.Secrets.History.{
  Call, creates, updates, deletes, attaches, after, after_all, Grows, Grows-refl, Grows-trans,
}
use yandex_go_final_diploma.Server.Secrets.Changes.{settled-Grows, grown-Grows}

module _ (x : External) where
  update_secret-Grows : (p : UpdateParams) (d : Db) → Grows d (Spec.update_secret x p d).1
  unfolding apply_update
  update_secret-Grows p d = elim (update_secret-cases x p d) [
    | inl (e, c, s) ↦ rw s (Grows-refl d d refl refl)
    | inr (f, s) ↦ settled-Grows f (edited p) _ (λ r. refl) (omega arith) refl refl (ground arith)
  ]

  delete_secret-Grows : (p : DeleteParams) (d : Db) → Grows d (Spec.delete_secret x p d).1
  unfolding apply_delete
  delete_secret-Grows p d = elim (delete_secret-cases x p d) [
    | inl (e, c, s) ↦ rw s (Grows-refl d d refl refl)
    | inr (f, s) ↦ settled-Grows f removed _ (λ r. refl) (omega arith) refl refl (ground arith)
  ]

  attach_blob-Grows : (p : AttachBlobParams) (d : Db) → Grows d (Spec.attach_blob x p d).1
  unfolding apply_attach
  attach_blob-Grows p d = elim (attach_blob-cases x p d) [
    | inl (e, c, s) ↦ rw s (Grows-refl d d refl refl)
    | inr (f, s) ↦ settled-Grows f (attached p) _ (λ r. refl) (omega arith) refl refl (ground arith)
  ]

module _ (x : External) where
  create_secret-Grows : (p : CreateParams) (d : Db) → Grows d (Spec.create_secret x p d).1
  unfolding Spec.new_secret
  create_secret-Grows p d = elim (create_secret-cases x p d) [
    | inl (e, k, s) ↦ rw s (Grows-refl d d refl refl)
    | inr (t, inl (e, s)) ↦ rw s (Grows-refl d d refl refl)
    | inr (t, inr (sid, e, absent, s)) ↦
        rw s (grown-Grows t.vid t.vault (Spec.new_secret p sid t.vid d) d refl t.has_vault)
  ]

-- What serves a decision that grows the database grows it.
Serves-Grows :
    {A : Type 0} {m : Action A} {decide : Query A} (now : ℕ) (events : List Event) (d : Db)
    → Serves m decide
    → ((s : Db) → Grows s (decide s).1)
    → Grows d (m (record { store = record d { now = now }; events = events })).1.store
Serves-Grows now events d serves grows =
    let start = Grows-refl d (record d { now = now }) refl refl in
    elim (Serves-cases serves (record { store = record d { now = now }; events = events })) [
      | inl (e, _, _, s) ↦ rw s start
      | inr (_, s) ↦ rw s (Grows-trans start (grows (record d { now = now })))
    ]

module _ (x : External) (laws : UuidLaws x) where
  after-Grows :
      (c : Call) (now : ℕ) (events : List Event) (d : Db) → Grows d (after x c now events d)
  unfolding after
  after-Grows (creates p) now events d =
      Serves-Grows now events d (Serves-create_secret x p) (create_secret-Grows x p)
  after-Grows (updates p) now events d =
      Serves-Grows now events d (Serves-update_secret x laws p) (update_secret-Grows x p)
  after-Grows (deletes p) now events d =
      Serves-Grows now events d (Serves-delete_secret x laws p) (delete_secret-Grows x p)
  after-Grows (attaches p) now events d =
      Serves-Grows now events d (Serves-attach_blob x laws p) (attach_blob-Grows x p)

  -- Over any history of calls, made at any times and with any failures of the environment, no secret
  -- and no vault is lost and no version goes down; a deleted secret stays as it is; a secret stays in
  -- its vault, with its type; a secret that differs from what it was is in a vault whose version is
  -- above what it was, and so is one that was not there before; and no vault changes hands.
  pub after_all-Grows :
      (calls : List (Call × ℕ × List Event)) (d : Db) → Grows d (after_all x calls d)
  unfolding after_all
  after_all-Grows [] d = Grows-refl d d refl refl
  after_all-Grows ((c, now, events) ∷ rest) d =
      Grows-trans (after-Grows c now events d) (after_all-Grows rest (after x c now events d))
