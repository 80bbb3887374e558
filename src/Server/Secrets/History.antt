-- ===== src/Server/Secrets/History.antt =====
-- Histories of the scenarios that write secrets: each call comes with what the environment does to it.
use yandex_go_final_diploma.Prelude.{
  ℕ, ◌≤◌, ◌<◌, true, ◌≡◌, refl, ◌∙◌, ap, ◌⊎◌, inl, inr, arith, none, some, Option-cases, List, [],
  ◌∷◌,
}
use yandex_go_final_diploma.Server.External.{External}
use yandex_go_final_diploma.Server.Store.{Db, SecretRow, VaultRow, Event}
use yandex_go_final_diploma.Server.Store.Queries.{find_secret, find_vault}
use yandex_go_final_diploma.Server.Tx.{pool}
use yandex_go_final_diploma.Server.Secrets.{
  CreateParams, UpdateParams, DeleteParams, AttachBlobParams, create_secret, update_secret,
  delete_secret, attach_blob,
}

pub data Call : Type 0 where
  creates : CreateParams → Call
  updates : UpdateParams → Call
  deletes : DeleteParams → Call
  attaches : AttachBlobParams → Call

-- The database behind one call, made at some time and in some environment.
unfoldable pub after : External → Call → ℕ → List Event → Db → Db
after x (creates p) now events d =
    (create_secret x pool p (record { store = record d { now = now }; events = events })).1.store
after x (updates p) now events d =
    (update_secret x pool p (record { store = record d { now = now }; events = events })).1.store
after x (deletes p) now events d =
    (delete_secret x pool p (record { store = record d { now = now }; events = events })).1.store
after x (attaches p) now events d =
    (attach_blob x pool p (record { store = record d { now = now }; events = events })).1.store

unfoldable pub after_all : External → List (Call × ℕ × List Event) → Db → Db
unfolding after
after_all x [] d = d
after_all x ((c, now, events) ∷ rest) d = after_all x rest (after x c now events d)

-- The vault is there, with a version above the one that it had.
abbrev pub Counted : Db → Db → ℕ → Type 0
Counted d d' vid =
    (v' : VaultRow) × (find_vault vid d' ≡ some v')
    × ((v : VaultRow) → find_vault vid d ≡ some v → v.version < v'.version)

-- What became of one secret: it is as it was, or its vault has counted up, so that a client that
-- compares vault versions looks again.
pub record Kept (d d' : Db) (r : SecretRow) (r' : SecretRow) : Type 0 where
  pub version : r.version ≤ r'.version
  pub tombstone : r.deleted ≡ true → r' ≡ r
  pub vault : r'.vault_id ≡ r.vault_id
  pub type : r'.type ≡ r.type
  pub seen : (r' ≡ r) ⊎ Counted d d' r.vault_id

pub record Grows (d d' : Db) : Type 0 where
  pub secrets :
      (j : ℕ) (r : SecretRow)
      → find_secret j d ≡ some r
      → (r' : SecretRow) × (find_secret j d' ≡ some r') × Kept d d' r r'
  pub vaults :
      (j : ℕ) (v : VaultRow)
      → find_vault j d ≡ some v
      → (v' : VaultRow) × (find_vault j d' ≡ some v')
        × (v.version ≤ v'.version)
        × (v'.user_id ≡ v.user_id)
        × (v'.deleted ≡ v.deleted)
  pub created :
      (j : ℕ) (r' : SecretRow)
      → find_secret j d ≡ none
      → find_secret j d' ≡ some r'
      → Counted d d' r'.vault_id

pub Grows-refl : (d d' : Db) → d'.secrets ≡ d.secrets → d'.vaults ≡ d.vaults → Grows d d'
unfolding find_secret find_vault
Grows-refl d d' e f = record {
  secrets = λ j r h. (
    r,
    rw e h,
    record {
      version = omega arith;
      tombstone = λ _. refl;
      vault = refl;
      type = refl;
      seen = inl refl;
    },
  );
  vaults = λ j v h. (v, rw f h, omega arith, refl, refl);
  created = λ j r' h k. cc (h, k, e);
}

module _ {c d e : Db} (g : Grows c d) (h : Grows d e) where
  -- A vault that counted up in the first part stays above.
  Counted-then : (vid : ℕ) → Counted c d vid → Counted c e vid
  Counted-then vid (v', f, above) =
      let grown = h.vaults vid v' f in (grown.0, grown.1, λ v k. omega (arith, above v k, grown.2))

  -- A vault that counts up in the second part did not go down in the first.
  Counted-later : (vid : ℕ) → Counted d e vid → Counted c e vid
  Counted-later vid (v', f, above) =
      (v', f, λ v k. let grown = g.vaults vid v k in omega (arith, above grown.0 grown.1, grown.2))

  seen_trans :
      {r s t : SecretRow}
      → s.vault_id ≡ r.vault_id
      → (s ≡ r) ⊎ Counted c d r.vault_id
      → (t ≡ s) ⊎ Counted d e s.vault_id
      → (t ≡ r) ⊎ Counted c e r.vault_id
  seen_trans same (inl p) (inl q) = inl (q ∙ p)
  seen_trans {r} same (inl p) (inr q) = inr (Counted-later r.vault_id (rw (← same) q))
  seen_trans {r} same (inr p) q = inr (Counted-then r.vault_id p)

  Kept-trans : {r s t : SecretRow} → Kept c d r s → Kept d e s t → Kept c e r t
  Kept-trans k l = record {
    version = omega (arith, k.version, l.version);
    tombstone = λ gone.
        l.tombstone (ap (λ (q : SecretRow). q.deleted) (k.tombstone gone) ∙ gone)
        ∙ k.tombstone gone;
    vault = l.vault ∙ k.vault;
    type = l.type ∙ k.type;
    seen = seen_trans k.vault k.seen l.seen;
  }

  created_trans :
      (j : ℕ) (r : SecretRow)
      → find_secret j c ≡ none
      → find_secret j e ≡ some r
      → Counted c e r.vault_id
  created_trans j r absent there = elim (Option-cases (find_secret j d)) [
    | inl missing ↦ Counted-later r.vault_id (h.created j r missing there)
    | inr (s, a) ↦
        let then = h.secrets j s a in
        let same : r.vault_id ≡ s.vault_id = cc (there, then.1, then.2.vault) in
        rw same (Counted-then s.vault_id (g.created j s absent a))
  ]

  pub Grows-trans : Grows c e
  Grows-trans = record {
    secrets = λ j r a.
        let first = g.secrets j r a in
        let then = h.secrets j first.0 first.1 in (then.0, then.1, Kept-trans first.2 then.2);
    vaults = λ j v a.
        let first = g.vaults j v a in
        let then = h.vaults j first.0 first.1 in
        (then.0, then.1, omega (arith, first.2, then.2), then.3 ∙ first.3, then.4 ∙ first.4);
    created = created_trans;
  }
