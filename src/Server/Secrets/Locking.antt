-- ===== src/Server/Secrets/Locking.antt =====
-- The versions that edits and deletions of secrets meet and leave.
use yandex_go_final_diploma.Prelude.{
  ℕ, ◌+◌, String, false, ◌≡◌, ◌≢◌, refl, ap, ◌∙◌, inl, inr, arith,
}
use yandex_go_final_diploma.Exec.{Result, ok, err}
use yandex_go_final_diploma.Server.Domain.{Secret}
use yandex_go_final_diploma.Server.Errors.{Err, conflict, is_fault}
use yandex_go_final_diploma.Server.External.{External, UuidLaws}
use yandex_go_final_diploma.Server.Store.{Db, SecretRow, World}
use yandex_go_final_diploma.Server.Tx.{pool}
use yandex_go_final_diploma.Server.Tx.Runs.{Serves-cases}
use yandex_go_final_diploma.Server.Repo.Secrets.{to_secret}
use yandex_go_final_diploma.Server.Secrets.{
  UpdateParams, DeleteParams, update_secret, delete_secret,
}
use yandex_go_final_diploma.Server.Secrets.Spec
use yandex_go_final_diploma.Server.Secrets.Spec.{write, edited, removed, apply_update, apply_delete}
use yandex_go_final_diploma.Server.Secrets.Refines.{Serves-update_secret, Serves-delete_secret}
use yandex_go_final_diploma.Server.Secrets.Found.{
  Found, is_conflict, update_secret-cases, delete_secret-cases, Wrote, write-Wrote,
}

-- The row was live, had the base version, and is now `change` of it.
abbrev pub Replaced :
    External → String → String → ℕ → (SecretRow → SecretRow) → ℕ → Db → Db → Type 0
Replaced x secret_id user_id base change n d d' =
    (f : Found x secret_id user_id d) × (f.row.deleted ≡ false)
    × (f.row.version ≡ base)
    × (n ≡ base + 1)
    × Wrote d d' f.sid f.row (change f.row) f.vault

-- The row was live and had another version than the base, `c` is that row, and nothing has changed.
abbrev pub Conflicts : External → String → String → ℕ → Secret → Db → Db → Type 0
Conflicts x secret_id user_id base c d d' =
    (f : Found x secret_id user_id d) × (f.row.deleted ≡ false)
    × (f.row.version ≢ base)
    × (c ≡ to_secret x f.row)
    × (d' ≡ d)

-- `Wrote`, for a decision that has written.
written :
    {x : External} {secret_id user_id : String} {d d' : Db} (f : Found x secret_id user_id d)
    (change : SecretRow → SecretRow)
    → ((r : SecretRow) → (change r).id ≡ r.id)
    → d' ≡ write f.sid change f.row d
    → Wrote d d' f.sid f.row (change f.row) f.vault
written f change keeps e =
    rw e (write-Wrote f.sid change f.row f.vault _ keeps f.has_row f.has_vault)

module _ (x : External) where
  spec_update-Replaced :
      (p : UpdateParams) (d : Db) (n : ℕ)
      → (Spec.update_secret x p d).0 ≡ ok n
      → Replaced x p.secret_id p.user_id p.base_version (edited p) n d (Spec.update_secret x p d).1
  unfolding apply_update
  spec_update-Replaced p d n h = elim (update_secret-cases x p d) [
    | inl (e, c, s) ↦ cc
    | inr (f, s) ↦ (
      f,
      ground arith,
      ground arith,
      ground arith,
      written f (edited p) (λ r. refl) (ground arith),
    )
  ]

  spec_update-Conflicts :
      (p : UpdateParams) (d : Db) (c : Secret)
      → (Spec.update_secret x p d).0 ≡ err (conflict c)
      → Conflicts x p.secret_id p.user_id p.base_version c d (Spec.update_secret x p d).1
  unfolding apply_update is_conflict
  spec_update-Conflicts p d c h = elim (update_secret-cases x p d) [
    | inl (e, k, s) ↦ ground arith
    | inr (f, s) ↦ (f, ground arith, ground arith, ground arith, ground arith)
  ]

  spec_delete-Replaced :
      (p : DeleteParams) (d : Db) (n : ℕ)
      → (Spec.delete_secret x p d).0 ≡ ok n
      → Replaced x p.secret_id p.user_id p.base_version removed n d (Spec.delete_secret x p d).1
  unfolding apply_delete
  spec_delete-Replaced p d n h = elim (delete_secret-cases x p d) [
    | inl (e, c, s) ↦ cc
    | inr (f, s) ↦
        (f, ground arith, ground arith, ground arith, written f removed (λ r. refl) (ground arith))
  ]

  spec_delete-Conflicts :
      (p : DeleteParams) (d : Db) (c : Secret)
      → (Spec.delete_secret x p d).0 ≡ err (conflict c)
      → Conflicts x p.secret_id p.user_id p.base_version c d (Spec.delete_secret x p d).1
  unfolding apply_delete is_conflict
  spec_delete-Conflicts p d c h = elim (delete_secret-cases x p d) [
    | inl (e, k, s) ↦ ground arith
    | inr (f, s) ↦ (f, ground arith, ground arith, ground arith, ground arith)
  ]

module _ (x : External) (laws : UuidLaws x) where
  -- An edit that is accepted, under any failures and retries, met its secret live, in a vault of the
  -- user and at the base version; it returns the next version, replaces that one row's ciphertexts,
  -- counts its vault one up, and changes nothing else.
  pub update_secret-Replaced :
      (p : UpdateParams) (w : World) (n : ℕ)
      → (update_secret x pool p w).0 ≡ ok n
      → Replaced x p.secret_id p.user_id p.base_version
          (edited p)
          n
          w.store
          (update_secret x pool p w).1.store
  update_secret-Replaced p w n h = elim (Serves-cases (Serves-update_secret x laws p) w) [
    | inl (e, _, f, _) ↦ cc
    | inr (f, s) ↦ rw s (spec_update-Replaced x p w.store n (cc))
  ]

  -- A deletion that is accepted met its secret live, in a vault of the user and at the base version; it
  -- returns the next version, marks that one row deleted, counts its vault one up, and changes nothing
  -- else.
  pub delete_secret-Replaced :
      (p : DeleteParams) (w : World) (n : ℕ)
      → (delete_secret x pool p w).0 ≡ ok n
      → Replaced x p.secret_id p.user_id p.base_version removed n w.store
          (delete_secret x pool p w).1.store
  delete_secret-Replaced p w n h = elim (Serves-cases (Serves-delete_secret x laws p) w) [
    | inl (e, _, f, _) ↦ cc
    | inr (f, s) ↦ rw s (spec_delete-Replaced x p w.store n (cc))
  ]

  -- An edit that reports a conflict hands out the row as it stands, which is live, the user's and at
  -- another version than the base, and has changed nothing.
  pub update_secret-Conflicts :
      (p : UpdateParams) (w : World) (c : Secret)
      → (update_secret x pool p w).0 ≡ err (conflict c)
      → Conflicts x p.secret_id p.user_id p.base_version c w.store
          (update_secret x pool p w).1.store
  unfolding is_fault
  update_secret-Conflicts p w c h = elim (Serves-cases (Serves-update_secret x laws p) w) [
    | inl (e, f, g, _) ↦ ground arith
    | inr (f, s) ↦ rw s (spec_update-Conflicts x p w.store c (cc))
  ]

  -- An edit that reports an error has changed nothing.
  pub update_secret-Unchanged :
      (p : UpdateParams) (w : World) (e : Err)
      → (update_secret x pool p w).0 ≡ err e
      → (update_secret x pool p w).1.store ≡ w.store
  unfolding apply_update
  update_secret-Unchanged p w e h = elim (Serves-cases (Serves-update_secret x laws p) w) [
    | inl (_, _, _, same) ↦ same
    | inr (f, s) ↦ elim (update_secret-cases x p w.store) [
      | inl (_, _, t) ↦ s ∙ ap (λ (a : Result Err ℕ × Db). a.1) t
      | inr (found, t) ↦ ground (arith, h, f, s, t)
    ]
  ]

  pub delete_secret-Conflicts :
      (p : DeleteParams) (w : World) (c : Secret)
      → (delete_secret x pool p w).0 ≡ err (conflict c)
      → Conflicts x p.secret_id p.user_id p.base_version c w.store
          (delete_secret x pool p w).1.store
  unfolding is_fault
  delete_secret-Conflicts p w c h = elim (Serves-cases (Serves-delete_secret x laws p) w) [
    | inl (e, f, g, _) ↦ ground arith
    | inr (f, s) ↦ rw s (spec_delete-Conflicts x p w.store c (cc))
  ]

  -- A deletion that reports an error has changed nothing.
  pub delete_secret-Unchanged :
      (p : DeleteParams) (w : World) (e : Err)
      → (delete_secret x pool p w).0 ≡ err e
      → (delete_secret x pool p w).1.store ≡ w.store
  unfolding apply_delete
  delete_secret-Unchanged p w e h = elim (Serves-cases (Serves-delete_secret x laws p) w) [
    | inl (_, _, _, same) ↦ same
    | inr (f, s) ↦ elim (delete_secret-cases x p w.store) [
      | inl (_, _, t) ↦ s ∙ ap (λ (a : Result Err ℕ × Db). a.1) t
      | inr (found, t) ↦ ground (arith, h, f, s, t)
    ]
  ]
