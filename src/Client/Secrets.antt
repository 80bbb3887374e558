-- ===== src/Client/Secrets.antt =====
-- internal/client/usecase/secret: usecase.go, aad.go, tiers.go, and what create.go and update.go cache.
pub mod Sealing
pub mod Scenarios
pub mod Answers
pub mod Durable
pub mod Loading
use Prim.Native.String.{◌++◌ as append}
use yandex_go_final_diploma.Prelude.{
  ℕ, ◌*◌, String, Bool, true, false, Option, none, some, List, [], ◌∷◌, str_eq, if◌then◌else◌,
  length, ltb,
}
use yandex_go_final_diploma.Exec.{Exec, Result, ok, err, pure, raise, refuse_if, ◌>>=◌, ◌>>◌}
use yandex_go_final_diploma.Server.Domain.{Bytes}
use yandex_go_final_diploma.Crypto.Aead.{Aead, CryptoErr, Entropy, encrypt_with_ad, decrypt_with_ad}
use yandex_go_final_diploma.Client.Errors.{
  ClientErr, vault_locked, empty_vault_id, index_too_large, crypto_failure,
}
use yandex_go_final_diploma.Client.Local.{LocalSecret}
use yandex_go_final_diploma.Client.Local.Secrets as Secrets
use yandex_go_final_diploma.Client.Device.{
  ServerClient, Json, Device, Scenario, run_local, access_token,
}
use yandex_go_final_diploma.Client.Replay.{is_present}

-- What the scenarios are built with: the server, the cipher, the codec of queued bodies, the keys of
-- the opened vaults that the session holds, and from the language `%d` and the bytes of a string.
pub record Env (S : Type 0) : Type 0 where
  pub server : ServerClient S
  pub aead : Aead
  pub json : Json
  pub vault_keys : String → Option Bytes
  pub decimal : ℕ → String
  pub utf8 : String → Bytes

-- The JSON texts of the three parts of a secret.
pub record Tiers : Type 0 where
  pub row : Bytes
  pub index : Bytes
  pub payload : Bytes

pub record Sealed : Type 0 where
  pub enc_row : Bytes
  pub enc_index : Bytes
  pub enc_payload : Bytes

-- The randomness of the three encryptions.
pub record Draws : Type 0 where
  pub for_row : Entropy
  pub for_index : Entropy
  pub for_payload : Entropy

abbrev pub tier_row : String
tier_row = "row"

abbrev pub tier_index : String
tier_index = "index"

abbrev pub tier_payload : String
tier_payload = "payload"

abbrev pub max_enc_index_size : ℕ
max_enc_index_size = 8 * 1024

abbrev pub create_version : ℕ
create_version = 1

unfoldable pub check_index_size : {S : Type 0} → Bytes → Scenario S (Unit {0})
unfolding refuse_if
check_index_size plaintext = refuse_if (ltb max_enc_index_size (length plaintext)) index_too_large

-- An error of the cipher, wrapped.
unfoldable pub ciphered : {S A : Type 0} → Result CryptoErr A → Scenario S A
ciphered (ok a) = pure a
ciphered (err _) = raise crypto_failure

abbrev pub found_key : {S : Type 0} → Option Bytes → Scenario S Bytes
found_key none = raise vault_locked
found_key (some key) = pure key

-- The row of a secret with its three ciphertexts.
unfoldable pub full_row : String → String → ℕ → Sealed → ℕ → Bool → LocalSecret
full_row id vault_id type s version dirty = record {
  id = id;
  vault_id = vault_id;
  type = type;
  enc_row = s.enc_row;
  enc_index = s.enc_index;
  enc_payload = s.enc_payload;
  version = version;
  index_loaded = is_present s.enc_index;
  payload_loaded = is_present s.enc_payload;
  dirty = dirty;
  deleted = false;
}

module _ {S : Type 0} (env : Env S) where
  unfoldable pub secret_aad : String → String → ℕ → String → Bytes
  secret_aad vault_id secret_id version tier = env.utf8 (
      append "gophkeeper:secret:v1|vault=" (
        append vault_id (
          append "|secret=" (
            append secret_id
              (append "|ver=" (append (env.decimal version) (append "|tier=" tier)))))))

  unfoldable pub vault_context : String → Scenario S (Bytes × String)
  unfolding refuse_if access_token
  vault_context vault_id = do
    refuse_if (str_eq vault_id "") empty_vault_id
    key ← found_key (env.vault_keys vault_id)
    token ← access_token
    pure (key, token)

  unfoldable pub encrypt_tiers : Draws → Bytes → String → String → ℕ → Tiers → Scenario S Sealed
  unfolding ciphered encrypt_with_ad secret_aad check_index_size
  encrypt_tiers draws key vault_id secret_id version t = do
    enc_row ← ciphered (
        encrypt_with_ad env.aead draws.for_row key t.row
          (secret_aad vault_id secret_id version tier_row))
    check_index_size t.index
    enc_index ← ciphered (
        encrypt_with_ad env.aead draws.for_index key t.index
          (secret_aad vault_id secret_id version tier_index))
    enc_payload ← ciphered (
        encrypt_with_ad env.aead draws.for_payload key t.payload
          (secret_aad vault_id secret_id version tier_payload))
    pure (record { enc_row = enc_row; enc_index = enc_index; enc_payload = enc_payload })

  -- A part that is empty stays empty.
  unfoldable pub decrypt_tier : Bytes → Bytes → Bytes → Scenario S Bytes
  unfolding ciphered decrypt_with_ad
  decrypt_tier key blob ad =
      if is_present blob then ciphered (decrypt_with_ad env.aead key blob ad) else pure []

  unfoldable pub decrypt_tiers : Bytes → String → String → ℕ → Sealed → Scenario S Tiers
  unfolding decrypt_tier secret_aad
  decrypt_tiers key vault_id secret_id version s = do
    row ← decrypt_tier key s.enc_row (secret_aad vault_id secret_id version tier_row)
    index ← decrypt_tier key s.enc_index (secret_aad vault_id secret_id version tier_index)
    payload ← decrypt_tier key s.enc_payload (secret_aad vault_id secret_id version tier_payload)
    pure (record { row = row; index = index; payload = payload })

  unfoldable pub cache_created : String → String → ℕ → Sealed → Bool → Scenario S (Unit {0})
  unfolding full_row
  cache_created id vault_id type s dirty =
      run_local (Secrets.upsert_secret_row (full_row id vault_id type s create_version dirty))

  unfoldable pub cache_full_secret : String → String → ℕ → Sealed → ℕ → Bool → Scenario S (Unit {0})
  unfolding full_row
  cache_full_secret id vault_id type s version dirty = do
    run_local (Secrets.upsert_secret_row (full_row id vault_id type s version dirty))
    (if is_present s.enc_index
        then run_local (Secrets.set_secret_index id s.enc_index version)
        else pure tt)
    (if is_present s.enc_payload
        then run_local (Secrets.set_secret_payload id s.enc_payload version)
        else pure tt)
