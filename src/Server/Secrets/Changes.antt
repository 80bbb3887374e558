-- ===== src/Server/Secrets/Changes.antt =====
-- One change of one secret, and one secret more, as steps of a history.
use yandex_go_final_diploma.Prelude.{
  ℕ, ◌≤◌, String, false, ◌≡◌, refl, ◌∙◌, ◌⊎◌, inl, inr, arith, some, [], ◌∷◌, ◌++◌, update,
}
use native.Mathlib.Decide.{ℕ_discrete}
use yandex_go_final_diploma.Server.External.{External}
use yandex_go_final_diploma.Server.Store.{Db, SecretRow, VaultRow}
use yandex_go_final_diploma.Server.Store.Queries.{
  counted_up, find_secret, find_vault, with_vault_id,
}
use yandex_go_final_diploma.Server.Store.Lookups.{find_secret-append, find_vault-bump}
use yandex_go_final_diploma.Server.Secrets.Spec.{write}
use yandex_go_final_diploma.Server.Secrets.Found.{Found, Wrote, write-Wrote}
use yandex_go_final_diploma.Server.Secrets.Created.{grown}
use yandex_go_final_diploma.Server.Secrets.History.{Kept, Grows, Grows-refl}

module _ {d d' : Db} {sid : ℕ} {r r' : SecretRow} {v : VaultRow}
    (wrote : Wrote d d' sid r r' v) where
  Wrote-Kept :
      r.version ≤ r'.version
      → r.deleted ≡ false
      → r'.vault_id ≡ r.vault_id
      → r'.type ≡ r.type
      → Kept d d' r r'
  Wrote-Kept up live same type = record {
    version = up;
    tombstone = λ gone. cc;
    vault = same;
    type = type;
    seen = inr (counted_up v, wrote.vault_counts, λ u h. ground (arith, wrote.had_vault));
  }

  Wrote-secrets :
      Kept d d' r r'
      → (j : ℕ) (s : SecretRow) → find_secret j d ≡ some s
      → (s' : SecretRow) × (find_secret j d' ≡ some s') × Kept d d' s s'
  Wrote-secrets kept j s h = elim (ℕ_discrete j sid) [
    | yes e ↦ let same : s ≡ r = cc (h, e, wrote.was) in (r', rw e wrote.becomes, rw same kept)
    | no n ↦ (
      s,
      wrote.others j n ∙ h,
      record {
        version = omega arith;
        tombstone = λ _. refl;
        vault = refl;
        type = refl;
        seen = inl refl;
      },
    )
  ]

  Wrote-vaults :
      (j : ℕ) (u : VaultRow)
      → find_vault j d ≡ some u
      → (u' : VaultRow) × (find_vault j d' ≡ some u')
        × (u.version ≤ u'.version)
        × (u'.user_id ≡ u.user_id)
        × (u'.deleted ≡ u.deleted)
  Wrote-vaults j u h = elim (ℕ_discrete j r.vault_id) [
    | yes e ↦
        let same : u ≡ v = cc (h, e, wrote.had_vault) in
        (counted_up v, rw e wrote.vault_counts, rw same (omega arith), rw same refl, rw same refl)
    | no n ↦ (u, wrote.other_vaults j n ∙ h, omega arith, refl, refl)
  ]

  Wrote-Grows : Kept d d' r r' → Grows d d'
  Wrote-Grows kept = record {
    secrets = Wrote-secrets kept;
    vaults = Wrote-vaults;
    created = λ j s absent there. elim (ℕ_discrete j sid) [
      | yes e ↦ cc (e, absent, wrote.was)
      | no n ↦ cc (absent, there, wrote.others j n)
    ];
  }

-- What a decision on a found row leaves: the database as it was, or with the row of a live secret
-- changed in a way that keeps its place and does not take its version back.
pub settled-Grows :
    {x : External} {secret_id user_id : String} {d : Db} (f : Found x secret_id user_id d)
    (change : SecretRow → SecretRow) (d' : Db)
    → ((r : SecretRow) → (change r).id ≡ r.id)
    → f.row.version ≤ (change f.row).version
    → (change f.row).vault_id ≡ f.row.vault_id
    → (change f.row).type ≡ f.row.type
    → (d' ≡ d) ⊎ ((f.row.deleted ≡ false) × (d' ≡ write f.sid change f.row d))
    → Grows d d'
settled-Grows {d} f change d' keeps up same type (inl e) = rw e (Grows-refl d d refl refl)
settled-Grows {d} f change d' keeps up same type (inr (live, e)) =
    let wrote = write-Wrote f.sid change f.row f.vault d keeps f.has_row f.has_vault in
    rw e (Wrote-Grows wrote (Wrote-Kept wrote up live same type))

pub grown-Grows :
    (vid : ℕ) (v : VaultRow) (r : SecretRow) (d : Db)
    → r.vault_id ≡ vid
    → find_vault vid d ≡ some v
    → Grows d (grown vid r d)
unfolding find_vault
grown-Grows vid v r d same has = record {
  secrets = λ j s h. (
    s,
    rw (find_secret-append j d r (update (with_vault_id vid) counted_up d.vaults), h),
    record {
      version = omega arith;
      tombstone = λ _. refl;
      vault = refl;
      type = refl;
      seen = inl refl;
    },
  );
  vaults = λ j v h. elim (ℕ_discrete vid j) [
    | yes e ↦ (
      counted_up v,
      rw (find_vault-bump vid j d (d.secrets ++ r ∷ [])) (ground arith),
      omega arith,
      refl,
      refl,
    )
    | no n ↦ (
      v,
      rw (find_vault-bump vid j d (d.secrets ++ r ∷ [])) (ground arith),
      omega arith,
      refl,
      refl,
    )
  ];
  created = λ j s absent there.
      let created_is : s ≡ r =
        unfold find_secret in
        ground (
          arith,
          find_secret-append j d r (update (with_vault_id vid) counted_up d.vaults),
          absent,
          there,
        ) in
      (
        counted_up v,
        rw (created_is, same)
            (rw (find_vault-bump vid vid d (d.secrets ++ r ∷ [])) (ground (arith, has))),
        λ u h. ground (arith, h, has, created_is, same),
      );
}
