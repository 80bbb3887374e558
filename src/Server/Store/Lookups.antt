-- ===== src/Server/Store/Lookups.antt =====
-- How lookups by id see an updated or extended table.
use yandex_go_final_diploma.Prelude.{
  ℕ, Bool, ◌≡◌, refl, none, some, List, [], ◌∷◌, ◌++◌, ◌==◌, arith, if◌then◌else◌, find, update,
}
use mathlib.Core.Option
use yandex_go_final_diploma.Server.Store.{Db, SecretRow, VaultRow}
use yandex_go_final_diploma.Server.Store.Queries.{
  counted_up, find_secret, find_vault, with_secret_id, with_vault_id,
}

module _ {A : Type 0} (key : A → ℕ) where
  abbrev with_key : ℕ → A → Bool
  with_key i a = key a == i

  find-update :
      (f : A → A) (i j : ℕ) (xs : List A)
      → ((a : A) → key (f a) ≡ key a)
      → find (with_key j) (update (with_key i) f xs)
        ≡ (if i == j then Option.map f (find (with_key j) xs) else find (with_key j) xs)
  unfolding find update
  find-update f i j [] h = ground arith
  find-update f i j (a ∷ xs) h = ground (arith, find-update f i j xs h, h a)

  find-append :
      (j : ℕ) (xs : List A) (a : A)
      → find (with_key j) (xs ++ a ∷ []) ≡ elim (find (with_key j) xs) [
        | some b ↦ some b
        | none ↦ if key a == j then some a else none
      ]
  unfolding find
  find-append j [] a = refl
  find-append j (x ∷ xs) a = ground (arith, find-append j xs a)

  find-key : (j : ℕ) (xs : List A) (a : A) → find (with_key j) xs ≡ some a → key a ≡ j
  unfolding find
  find-key j [] a h = cc
  find-key j (x ∷ xs) a h = ground (arith, find-key j xs a)

abbrev secret_key : SecretRow → ℕ
secret_key r = r.id

abbrev vault_key : VaultRow → ℕ
vault_key v = v.id

module _ (f : SecretRow → SecretRow) (keeps : (r : SecretRow) → (f r).id ≡ r.id) where
  pub find_secret-update :
      (i j : ℕ) (d : Db) (vaults : List VaultRow)
      → find_secret j
          (record d { secrets = update (with_secret_id i) f d.secrets; vaults = vaults })
        ≡ (if i == j then Option.map f (find_secret j d) else find_secret j d)
  unfolding find_secret
  find_secret-update i j d vaults = find-update secret_key f i j d.secrets keeps

pub find_vault-bump :
    (i j : ℕ) (d : Db) (secrets : List SecretRow)
    → find_vault j
        (record d { secrets = secrets; vaults = update (with_vault_id i) counted_up d.vaults })
      ≡ (if i == j then Option.map counted_up (find_vault j d) else find_vault j d)
unfolding find_vault
find_vault-bump i j d secrets = find-update vault_key counted_up i j d.vaults (λ v. refl)

pub find_secret-append :
    (j : ℕ) (d : Db) (r : SecretRow) (vaults : List VaultRow)
    → find_secret j (record d { secrets = d.secrets ++ r ∷ []; vaults = vaults })
      ≡ elim (find_secret j d) [ some b ↦ some b | none ↦ if r.id == j then some r else none ]
unfolding find_secret
find_secret-append j d r vaults = find-append secret_key j d.secrets r

pub find_secret-id : (j : ℕ) (d : Db) (r : SecretRow) → find_secret j d ≡ some r → r.id ≡ j
unfolding find_secret
find_secret-id j d r h = find-key secret_key j d.secrets r h

pub find_vault-id : (j : ℕ) (d : Db) (v : VaultRow) → find_vault j d ≡ some v → v.id ≡ j
unfolding find_vault
find_vault-id j d v h = find-key vault_key j d.vaults v h
