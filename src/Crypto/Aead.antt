-- ===== src/Crypto/Aead.antt =====
-- pkg/crypto/aead.go and kdf.go. XChaCha20-Poly1305 is a parameter.
pub mod RoundTrip
use yandex_go_final_diploma.Prelude.{
  ℕ, zero, suc, ◌+◌, ◌%◌, ◌^◌, ◌<◌, ◌≤◌, String, Bool, true, false, not, ◌||◌, Option, none, some,
  List, [], ◌∷◌, ◌++◌, ◌≡◌, refl, length, ◌==◌, ltb, if◌then◌else◌,
}
use yandex_go_final_diploma.Exec.{Result, ok, err}
use yandex_go_final_diploma.Server.Domain.{Bytes}

-- `cipher.AEAD` of chacha20poly1305 for a key: the arguments are the key, the nonce, the text and the
-- associated data.
pub record Aead : Type 0 where
  pub seal : Bytes → Bytes → Bytes → Bytes → Bytes
  pub open_sealed : Bytes → Bytes → Bytes → Bytes → Option Bytes

-- The documented behaviour: what was sealed opens under the same key, nonce and data, and the tag adds
-- sixteen bytes.
pub record AeadLaws (x : Aead) : Type 0 where
  pub opens : (k n p ad : Bytes) → x.open_sealed k n (x.seal k n p ad) ad ≡ some p
  pub tag : (k n p ad : Bytes) → length (x.seal k n p ad) ≡ length p + 16

-- What was sealed opens under no other nonce or data.
pub record Authentic (x : Aead) : Type 0 where
  pub authentic :
      (k n p ad n' ad' q : Bytes)
      → x.open_sealed k n' (x.seal k n p ad) ad' ≡ some q
      → (n ≡ n') × (ad ≡ ad')

pub data CryptoErr : Type 0 where
  invalid_key_size ciphertext_too_short open_failed entropy_failed : CryptoErr
  invalid_stream_id stream_finished : CryptoErr
  read_failed write_failed frame_too_large empty_stream out_of_fuel : CryptoErr

abbrev pub key_size : ℕ
key_size = 32

abbrev pub nonce_size : ℕ
nonce_size = 24

-- A way in which `rand.Read` may fill a buffer of a length, `none` where it fails.
abbrev pub Entropy : Type 0
Entropy = ℕ → Option Bytes

-- The bytes before a place and those behind it, if there are enough.
unfoldable pub split_at : ℕ → Bytes → Option (Bytes × Bytes)
split_at zero bs = some ([], bs)
split_at (suc n) [] = none
split_at (suc n) (b ∷ bs) = elim (split_at n bs) [ none ↦ none | some (xs, ys) ↦ some (b ∷ xs, ys) ]

-- `newAEAD` and `chacha20poly1305.NewX` refuse a key of another length.
abbrev pub bad_key : Bytes → Bool
bad_key key = not (length key == key_size)

module _ (x : Aead) where
  abbrev pub sealed_with : Bytes → Bytes → Bytes → Option Bytes → Result CryptoErr Bytes
  sealed_with key plaintext ad none = err entropy_failed
  sealed_with key plaintext ad (some nonce) = ok (nonce ++ x.seal key nonce plaintext ad)

  unfoldable pub encrypt_with_ad : Entropy → Bytes → Bytes → Bytes → Result CryptoErr Bytes
  encrypt_with_ad entropy key plaintext ad =
      if bad_key key
      then err invalid_key_size
      else sealed_with key plaintext ad (entropy nonce_size)

  abbrev pub opened : Option Bytes → Result CryptoErr Bytes
  opened none = err open_failed
  opened (some p) = ok p

  abbrev pub open_parts : Bytes → Bytes → Option (Bytes × Bytes) → Result CryptoErr Bytes
  open_parts key ad none = err ciphertext_too_short
  open_parts key ad (some (nonce, ciphertext)) = opened (x.open_sealed key nonce ciphertext ad)

  unfoldable pub decrypt_with_ad : Bytes → Bytes → Bytes → Result CryptoErr Bytes
  unfolding split_at
  decrypt_with_ad key blob ad =
      if bad_key key then err invalid_key_size else open_parts key ad (split_at nonce_size blob)

  unfoldable pub encrypt : Entropy → Bytes → Bytes → Result CryptoErr Bytes
  unfolding encrypt_with_ad
  encrypt entropy key plaintext = encrypt_with_ad entropy key plaintext []

  unfoldable pub decrypt : Bytes → Bytes → Result CryptoErr Bytes
  unfolding decrypt_with_ad
  decrypt key blob = decrypt_with_ad key blob []

  unfoldable pub wrap_key : Entropy → Bytes → Bytes → Result CryptoErr Bytes
  unfolding encrypt
  wrap_key entropy kek key = encrypt entropy kek key

  unfoldable pub unwrap_key : Bytes → Bytes → Result CryptoErr Bytes
  unfolding decrypt
  unwrap_key kek wrapped = decrypt kek wrapped

unfoldable pub generate_key : Entropy → Result CryptoErr Bytes
generate_key entropy = elim (entropy key_size) [ none ↦ err entropy_failed | some key ↦ ok key ]
