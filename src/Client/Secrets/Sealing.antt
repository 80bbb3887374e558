-- ===== src/Client/Secrets/Sealing.antt =====
-- What usecase/secret makes of the tiers of a secret: ciphertexts that are those of the tiers.
use yandex_go_final_diploma.Prelude.{ℕ, String, none, some, Option, ◌∙◌, ◌≡◌, ap, arith, str_eq}
use yandex_go_final_diploma.Exec.{Result, ok, err, pure, refuse_if}
use yandex_go_final_diploma.Exec.Returns.{bind-ok, ok-injective}
use yandex_go_final_diploma.Client.Errors.{empty_vault_id}
use yandex_go_final_diploma.Client.Device.{Device, access_token}
use yandex_go_final_diploma.Crypto.Aead.{CryptoErr, encrypt_with_ad}
use yandex_go_final_diploma.Server.Domain.{Bytes}
use yandex_go_final_diploma.Client.Secrets.{
  Env, Tiers, Sealed, Draws, ciphered, found_key, check_index_size, secret_aad, tier_row,
  tier_index, tier_payload, vault_context, encrypt_tiers,
}
use yandex_go_final_diploma.Client.Secrets.Answers.{recording}

-- The ciphertexts of a secret are those of its tiers: each is what the cipher makes, with its own
-- randomness, of its own tier under the key of the vault and the data that names the vault, the secret,
-- the version and the tier.
pub record SealedFrom {S : Type 0} (env : Env S) (draws : Draws) (vault_id secret_id : String)
    (version : ℕ) (t : Tiers) (s : Sealed) : Type 0 where
  pub key : Bytes
  pub key_of : env.vault_keys vault_id ≡ some key
  pub row :
      encrypt_with_ad env.aead draws.for_row key t.row
        (secret_aad env vault_id secret_id version tier_row)
      ≡ ok s.enc_row
  pub index :
      encrypt_with_ad env.aead draws.for_index key t.index
        (secret_aad env vault_id secret_id version tier_index)
      ≡ ok s.enc_index
  pub payload :
      encrypt_with_ad env.aead draws.for_payload key t.payload
        (secret_aad env vault_id secret_id version tier_payload)
      ≡ ok s.enc_payload

ciphered-ok :
    {S A : Type 0} (r : Result CryptoErr A) (d : Device S) (a : A)
    → (ciphered r d).0 ≡ ok a
    → r ≡ ok a
unfolding ciphered
ciphered-ok (ok b) d a h = ap ok (ok-injective h)
ciphered-ok (err e) d a h = ground (arith, h)

found_key-ok :
    {S : Type 0} (o : Option Bytes) (d : Device S) (key : Bytes)
    → (found_key o d).0 ≡ ok key
    → o ≡ some key
found_key-ok none d key h = ground (arith, h)
found_key-ok (some k) d key h = ap some (ok-injective h)

module _ {S : Type 0} (env : Env S) where
  pub vault_context-key :
      (vault_id : String) (d : Device S) (context : Bytes × String)
      → (vault_context env vault_id d).0 ≡ ok context
      → env.vault_keys vault_id ≡ some context.0
  unfolding vault_context
  vault_context-key vault_id d context h =
      let checked = bind-ok (refuse_if (str_eq vault_id "") empty_vault_id) _ d context h in
      let found = bind-ok (found_key (env.vault_keys vault_id)) _ _ context checked.second in
      let told =
        bind-ok (access_token {S = S}) (λ token. pure (found.value, token))
          (found_key (env.vault_keys vault_id)
            (refuse_if (str_eq vault_id "") empty_vault_id d).1).1
          context found.second in
      found_key-ok (env.vault_keys vault_id) _ _ found.first
      ∙ ap (λ c. some c.0) (ok-injective told.second)

  pub encrypt_tiers-SealedFrom :
      (draws : Draws) (vault_id secret_id : String) (version : ℕ) (t : Tiers) (key : Bytes)
      (d : Device S) (s : Sealed)
      → env.vault_keys vault_id ≡ some key
      → (encrypt_tiers env draws key vault_id secret_id version t d).0 ≡ ok s
      → SealedFrom env draws vault_id secret_id version t s
  unfolding encrypt_tiers
  encrypt_tiers-SealedFrom draws vault_id secret_id version t key d s known h =
      let row = bind-ok (ciphered _) _ d s h in
      let checked = bind-ok (check_index_size t.index) _ _ s row.second in
      let index = bind-ok (ciphered _) _ _ s checked.second in
      let payload = bind-ok (ciphered _) _ _ s index.second in
      let is = ok-injective payload.second in
      record {
        key = key;
        key_of = known;
        row = ciphered-ok _ _ _ row.first ∙ ap (λ b. ok b.enc_row) is;
        index = ciphered-ok _ _ _ index.first ∙ ap (λ b. ok b.enc_index) is;
        payload = ciphered-ok _ _ _ payload.first ∙ ap (λ b. ok b.enc_payload) is;
      }

-- The recorder changes neither the cipher nor the keys.
pub unrecorded-SealedFrom :
    {S : Type 0} (env : Env S) (draws : Draws) (vault_id secret_id : String) (version : ℕ)
    (t : Tiers) (s : Sealed)
    → SealedFrom (recording env) draws vault_id secret_id version t s
    → SealedFrom env draws vault_id secret_id version t s
unfolding secret_aad
unrecorded-SealedFrom env draws vault_id secret_id version t s h = record {
  key = h.key;
  key_of = h.key_of;
  row = h.row;
  index = h.index;
  payload = h.payload;
}
