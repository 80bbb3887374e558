-- ===== src/Server/Secrets/Created.antt =====
-- What a creation that gets past its checks has found, and what it leaves.
use yandex_go_final_diploma.Prelude.{
  ℕ, String, true, ◌≡◌, refl, ◌∙◌, ◌⊎◌, inl, inr, none, some, Option-cases, Bool-cases, [], ◌∷◌,
  ◌++◌, update, leb,
}
use yandex_go_final_diploma.Exec.{ok, err}
use yandex_go_final_diploma.Server.Errors.{
  Err, secret, invalid_uuid, vault_not_found, db, out_of_range, unique_violation,
}
use yandex_go_final_diploma.Server.External.{External}
use yandex_go_final_diploma.Server.Store.{Db, SecretRow, VaultRow}
use yandex_go_final_diploma.Server.Store.Queries.{
  max_bigint, counted_up, find_secret, find_vault, with_vault_id,
}
use yandex_go_final_diploma.Server.Store.Accounts.{owned_vault}
use yandex_go_final_diploma.Server.Secrets.{CreateParams}
use yandex_go_final_diploma.Server.Secrets.Found.{is_conflict, Refusal, past_check}
use yandex_go_final_diploma.Server.Secrets.Spec
use yandex_go_final_diploma.Server.Secrets.Spec.{
  Decision, unless, on_vault, apply_create, insert_secret, new_secret,
}

-- The database with a secret more, whose vault has counted up.
abbrev pub grown : ℕ → SecretRow → Db → Db
grown vid r d = record d {
  secrets = d.secrets ++ r ∷ [];
  vaults = update (with_vault_id vid) counted_up d.vaults;
}

-- The vault that a creation writes to.
pub record Target (x : External) (vault_id user_id : String) (d : Db) : Type 0 where
  pub vid : ℕ
  pub uid : ℕ
  pub vault : VaultRow
  pub parsed : x.parse_uuid vault_id ≡ some vid
  pub parsed_user : x.parse_uuid user_id ≡ some uid
  pub has_vault : find_vault vid d ≡ some vault
  pub owned : owned_vault uid vault ≡ true

module _ (x : External) where
  on_vault-cases :
      {A : Type 0} (vault_id user_id : String) (k : ℕ → VaultRow → Decision A) (d : Db)
      → Refusal d (on_vault x vault_id user_id k d)
        ⊎ ((t : Target x vault_id user_id d) × (on_vault x vault_id user_id k d
              ≡ k t.vid t.vault d))
  unfolding on_vault is_conflict
  on_vault-cases vault_id user_id k d = elim (Option-cases (x.parse_uuid vault_id)) [
    | inl e ↦ inl (secret vault_not_found, refl, rw (e, on_vault))
    | inr (vid, e) ↦ elim (Option-cases (x.parse_uuid user_id)) [
      | inl f ↦ inl (invalid_uuid, refl, rw (e, f, on_vault))
      | inr (uid, f) ↦ elim (Option-cases (find_vault vid d)) [
        | inl g ↦ inl (secret vault_not_found, refl, rw (e, f, g, on_vault))
        | inr (v, g) ↦ elim (Bool-cases (owned_vault uid v)) [
          | inl o ↦ inr (
            record {
              vid = vid;
              uid = uid;
              vault = v;
              parsed = e;
              parsed_user = f;
              has_vault = g;
              owned = o;
            },
            rw (e, f, g, o, on_vault),
          )
          | inr o ↦ inl (secret vault_not_found, refl, rw (e, f, g, o, on_vault))
        ]
      ]
    ]
  ]

  insert_secret-cases :
      (p : CreateParams) (vid : ℕ) (v : VaultRow) (sid : ℕ) (d : Db)
      → ((e : Err) × (insert_secret x p vid v sid d ≡ (err e, d)))
        ⊎ ((find_secret sid d ≡ none)
            × (insert_secret x p vid v sid d
                ≡ (ok (x.uuid_text sid), grown vid (new_secret p sid vid d) d)))
  unfolding insert_secret
  insert_secret-cases p vid v sid d = elim (Option-cases (find_secret sid d)) [
    | inl e ↦ elim (Bool-cases (leb max_bigint v.version)) [
      | inl f ↦ inl (db out_of_range, rw (e, f, insert_secret))
      | inr f ↦ inr (e, rw (e, f, insert_secret))
    ]
    | inr (r, e) ↦ inl (db (unique_violation "secrets_pkey"), rw (e, insert_secret))
  ]

  apply_create-cases :
      (p : CreateParams) (vid : ℕ) (v : VaultRow) (d : Db)
      → ((e : Err) × (apply_create x p vid v d ≡ (err e, d)))
        ⊎ ((sid : ℕ) × (x.parse_uuid p.secret_id ≡ some sid)
            × (find_secret sid d ≡ none)
            × (apply_create x p vid v d
                ≡ (ok (x.uuid_text sid), grown vid (new_secret p sid vid d) d)))
  unfolding apply_create
  apply_create-cases p vid v d = elim (Option-cases (x.parse_uuid p.secret_id)) [
    | inl e ↦ inl (invalid_uuid, rw (e, apply_create))
    | inr (sid, e) ↦ elim (insert_secret-cases p vid v sid d) [
      | inl (y, f) ↦ inl (y, rw (e, apply_create) f)
      | inr (absent, f) ↦ inr (sid, e, absent, rw (e, apply_create) f)
    ]
  ]

  pub create_secret-cases :
      (p : CreateParams) (d : Db)
      → Refusal d (Spec.create_secret x p d)
        ⊎ ((t : Target x p.vault_id p.user_id d) × (((e : Err) × (Spec.create_secret x p d
                  ≡ (err e, d)))
              ⊎ ((sid : ℕ) × (x.parse_uuid p.secret_id ≡ some sid)
                  × (find_secret sid d ≡ none)
                  × (Spec.create_secret x p d
                      ≡ (ok (x.uuid_text sid), grown t.vid (new_secret p sid t.vid d) d)))))
  unfolding Spec.create_secret is_conflict
  create_secret-cases p d =
      elim (past_check
        {t = λ (t : Target x p.vault_id p.user_id d). apply_create x p t.vid t.vault d} _ _ _ refl
        (past_check _ _ _ refl (
          past_check _ _ _ refl (
            past_check _ _ _ refl (
              past_check _ _ _ refl
                (on_vault-cases p.vault_id p.user_id (apply_create x p) d)))))) [
                  | inl r ↦ inl r
                  | inr (t, e) ↦ elim (apply_create-cases p t.vid t.vault d) [
                    | inl (y, f) ↦ inr (t, inl (y, e ∙ f))
                    | inr (sid, g, absent, f) ↦ inr (t, inr (sid, g, absent, e ∙ f))
                  ]
                ]
