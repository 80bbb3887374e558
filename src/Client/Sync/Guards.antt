-- ===== src/Client/Sync/Guards.antt =====
-- What synchronisation leaves alone: the queue, and the secrets that stand in it.
use yandex_go_final_diploma.Prelude.{
  String, true, false, Option, none, some, List, [], ◌∷◌, ◌≡◌, refl, sym, ap, ◌∙◌, subst, inl, inr,
  str_eq, if◌then◌else◌, find, any, Bool-cases, ℕ, arith,
}
use yandex_go_final_diploma.Exec.{pure}
use yandex_go_final_diploma.Exec.Keeps.{Keeps, Preorder, pure-Keeps, bind-Keeps, bind-at, if-Keeps}
use yandex_go_final_diploma.Client.Local.{
  Local, LocalVault, Statement, LocalSecret, OutboxStatus, pending, conflicted,
}
use yandex_go_final_diploma.Client.Local.Secrets.{
  find_secret, upsert_secret_row, stored, merged, with_id,
}
use yandex_go_final_diploma.Client.Local.Vaults as Vaults
use yandex_go_final_diploma.Client.Local.Outbox as Outbox
use yandex_go_final_diploma.Client.Local.Tables.{str_eq-same, find-append_other, find-update_other}
use yandex_go_final_diploma.Client.Device.{
  Device, ServerClient, VaultItem, VaultVersion, SecretRowItem, run_local,
}
use yandex_go_final_diploma.Client.Device.Keeps.{
  OnLocal, OnLocal-Preorder, run_local-Keeps, run_remote-Keeps, access_token-Keeps,
}
use yandex_go_final_diploma.Client.Sync.Listed.{is_outstanding, outstanding-listed}
use yandex_go_final_diploma.Client.Sync.{
  pulled, vault_meta, upsert_vaults, refresh_vault_meta, outstanding_secret_ids, upsert_rows,
  pull_vault_rows, pull_vaults, known_vaults, needs_vault_meta, is_current, sync,
}

-- The queue is as it was, and so is the row of the secret, if C.
abbrev Aside : Type 0 → String → Local → Local → Type 0
Aside C id l l' = (l'.outbox ≡ l.outbox) × (C → find_secret id l' ≡ find_secret id l)

-- The queue is as it was, and so is the row of the secret, if it stands in the queue.
abbrev pub Guarded : String → Local → Local → Type 0
Guarded id l l' = Aside (is_outstanding id l.outbox ≡ true) id l l'

module _ (id : String) where
  Guarded-Preorder : Preorder (Guarded id)
  Guarded-Preorder = record {
    stays = λ l. (refl, λ _. refl);
    chain =
        λ a b c ab bc. (bc.0 ∙ ab.0, λ out. bc.1 (ap (is_outstanding id) ab.0 ∙ out) ∙ ab.1 out);
  }

  not_this : (a b : String) → str_eq b id ≡ false → str_eq a b ≡ true → str_eq a id ≡ false
  not_this a b h same = ap (λ t. str_eq t id) (str_eq-same a b same) ∙ h

  stored-find :
      (s : LocalSecret) (o : Option LocalSecret) (rows : List LocalSecret)
      → str_eq s.id id ≡ false
      → find (with_id id) (stored s o rows) ≡ find (with_id id) rows
  unfolding stored merged
  stored-find s none rows other = find-append_other (with_id id) rows s other
  stored-find s (some _) rows other =
      find-update_other (with_id id) (with_id s.id) (merged s)
        (λ a same. (not_this a.id s.id other same, not_this a.id s.id other same)) rows

  module _ (C : Type 0) where
    Aside-Preorder : Preorder (Aside C id)
    Aside-Preorder = record {
      stays = λ l. (refl, λ _. refl);
      chain = λ a b c ab bc. (bc.0 ∙ ab.0, λ x. bc.1 x ∙ ab.1 x);
    }

    row-Aside :
        (s : LocalSecret) → (C → str_eq s.id id ≡ false) → Keeps (Aside C id) (upsert_secret_row s)
    unfolding upsert_secret_row find_secret
    row-Aside s other = record {
      at = λ l. (refl, λ c. stored-find s (find_secret s.id l) l.secrets (other c));
    }

  -- A statement that leaves the queue and the table of secrets as they are.
  module _ {A : Type 0} (st : Statement A) where
    aside-Guarded :
        ((l : Local) → (st l).1.outbox ≡ l.outbox)
        → ((l : Local) → (st l).1.secrets ≡ l.secrets)
        → Keeps (Guarded id) st
    unfolding find_secret
    aside-Guarded outbox secrets = record {
      at = λ l. (outbox l, λ _. ap (find (with_id id)) (secrets l));
    }

  vault-Guarded : (v : LocalVault) → Keeps (Guarded id) (Vaults.upsert_vault v)
  unfolding Vaults.upsert_vault
  vault-Guarded v = aside-Guarded (Vaults.upsert_vault v) (λ l. refl) (λ l. refl)

  list-Guarded : Keeps (Guarded id) Vaults.list_vaults
  unfolding Vaults.list_vaults
  list-Guarded = aside-Guarded Vaults.list_vaults (λ l. refl) (λ l. refl)

  status-Guarded : (s : OutboxStatus) → Keeps (Guarded id) (Outbox.list_outbox_by_status s)
  unfolding Outbox.list_outbox_by_status
  status-Guarded s = aside-Guarded (Outbox.list_outbox_by_status s) (λ l. refl) (λ l. refl)

  synced-Guarded : (v : String) (n : ℕ) → Keeps (Guarded id) (Vaults.set_vault_synced_version v n)
  unfolding Vaults.set_vault_synced_version
  synced-Guarded v n = aside-Guarded (Vaults.set_vault_synced_version v n) (λ l. refl) (λ l. refl)

other_id :
    (a id : String) (ids : List String)
    → any (str_eq a) ids ≡ false
    → any (str_eq id) ids ≡ true
    → str_eq a id ≡ false
other_id a id ids h k = elim (Bool-cases (str_eq a id)) [
  | inr e ↦ e
  | inl e ↦ ground (arith, h, k, subst (λ t. any (str_eq t) ids ≡ false) (str_eq-same a id e) h)
]

module _ {S : Type 0} (server : ServerClient S) (id : String) where
  P : Preorder (OnLocal {S = S} (Guarded id))
  P = OnLocal-Preorder (Guarded-Preorder id)

  upsert_vaults-Guarded :
      (items : List VaultItem) → Keeps (OnLocal (Guarded id)) (upsert_vaults server items)
  unfolding upsert_vaults
  upsert_vaults-Guarded [] = pure-Keeps P tt
  upsert_vaults-Guarded (it ∷ items) =
      bind-Keeps P _ _ (run_local-Keeps (Guarded-Preorder id) _ (vault-Guarded id (vault_meta it)))
        (λ _. upsert_vaults-Guarded items)

  known_vaults-Guarded :
      (token : String) (freshness : List VaultVersion)
      → Keeps (OnLocal (Guarded id)) (known_vaults server token freshness)
  unfolding known_vaults refresh_vault_meta
  known_vaults-Guarded token freshness =
      let listed = run_local-Keeps (Guarded-Preorder id) _ (list-Guarded id) in
      bind-Keeps P _ _ listed λ local.
        if-Keeps (needs_vault_meta freshness local) _ _
          (bind-Keeps P _ _
            (bind-Keeps P _ _ (run_remote-Keeps (Guarded-Preorder id) (server.list_vaults token))
              upsert_vaults-Guarded)
            (λ _. listed))
          (pure-Keeps P local)

  outstanding-Guarded : Keeps (OnLocal (Guarded id)) (outstanding_secret_ids server)
  unfolding outstanding_secret_ids Outbox.list_pending_outbox
  outstanding-Guarded =
      bind-Keeps P _ _ (run_local-Keeps (Guarded-Preorder id) _ (status-Guarded id pending)) λ _.
        bind-Keeps P _ _ (run_local-Keeps (Guarded-Preorder id) _ (status-Guarded id conflicted))
          λ _. pure-Keeps P _

  module _ (C : Type 0) (vault_id : String) (ids : List String)
      (listed : C → any (str_eq id) ids ≡ true) where
    -- A row is written only where its id is not among the collected ones.
    row_upserted-Aside :
        (r : SecretRowItem)
        → Keeps (OnLocal {S = S} (Aside C id)) (
            if any (str_eq r.id) ids
            then pure tt
            else run_local (upsert_secret_row (pulled vault_id r)))
    unfolding pulled
    row_upserted-Aside r = elim (Bool-cases (any (str_eq r.id) ids)) [
      | inl h ↦ rw h (pure-Keeps (OnLocal-Preorder (Aside-Preorder id C)) tt)
      | inr h ↦ rw h (
          run_local-Keeps (Aside-Preorder id C) _
            (row-Aside id C (pulled vault_id r) (λ c. other_id r.id id ids h (listed c))))
    ]

    upsert_rows-Aside :
        (rows : List SecretRowItem)
        → Keeps (OnLocal (Aside C id)) (upsert_rows server vault_id ids rows)
    unfolding upsert_rows
    upsert_rows-Aside [] = pure-Keeps (OnLocal-Preorder (Aside-Preorder id C)) tt
    upsert_rows-Aside (r ∷ rows) =
        bind-Keeps (OnLocal-Preorder (Aside-Preorder id C)) _ _ (row_upserted-Aside r)
          (λ _. upsert_rows-Aside rows)

  -- The rows are written behind a collection of the queue's secrets.
  pull_vault_rows-Guarded :
      (token vault_id : String) (version : ℕ)
      → Keeps (OnLocal (Guarded id)) (pull_vault_rows server token vault_id version)
  unfolding pull_vault_rows
  pull_vault_rows-Guarded token vault_id version =
      bind-Keeps P _ _
        (run_remote-Keeps (Guarded-Preorder id) (server.list_secret_rows token vault_id))
        λ rows. record {
          at = λ d.
              bind-at P (outstanding_secret_ids server) _ d (outstanding-Guarded.at d) λ ids h.
                let same = (outstanding-Guarded.at d).0 in
                let d1 = (outstanding_secret_ids server d).1 in
                bind-at P (upsert_rows server vault_id ids rows) _ d1
                  ((upsert_rows-Aside (is_outstanding id d1.local.outbox ≡ true) vault_id ids
                      (λ out.
                        outstanding-listed server id d ids h
                          (ap (is_outstanding id) (sym same) ∙ out))
                      rows).at
                    d1)
                  λ _ _.
                    (run_local-Keeps (Guarded-Preorder id) _
                        (synced-Guarded id vault_id version)).at
                      _;
        }

  pull_vaults-Guarded :
      (token : String) (local : List LocalVault) (freshness : List VaultVersion)
      → Keeps (OnLocal (Guarded id)) (pull_vaults server token local freshness)
  unfolding pull_vaults
  pull_vaults-Guarded token local [] = pure-Keeps P tt
  pull_vaults-Guarded token local (fv ∷ rest) =
      bind-Keeps P _ _
        (if-Keeps (is_current fv local) _ _ (pure-Keeps P tt)
          (pull_vault_rows-Guarded token fv.id fv.version))
        (λ _. pull_vaults-Guarded token local rest)

  sync-Guarded : Keeps (OnLocal (Guarded id)) (sync server)
  unfolding sync
  sync-Guarded = bind-Keeps P _ _ (access_token-Keeps (Guarded-Preorder id)) λ token.
      bind-Keeps P _ _ (run_remote-Keeps (Guarded-Preorder id) (server.check_freshness token))
        λ freshness.
          bind-Keeps P _ _ (known_vaults-Guarded token freshness)
            λ local. pull_vaults-Guarded token local freshness

  -- Whatever the server answers and whichever statements fail, synchronisation leaves the queue as it
  -- is, and the row of a secret that some entry of the queue is about.
  pub sync-spares :
      (d : Device S)
      → is_outstanding id d.local.outbox ≡ true
      → ((sync server d).1.local.outbox ≡ d.local.outbox)
        × (find_secret id (sync server d).1.local ≡ find_secret id d.local)
  sync-spares d out = ((sync-Guarded.at d).0, (sync-Guarded.at d).1 out)
