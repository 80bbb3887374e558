-- ===== src/Crypto/Stream.antt =====
-- internal/client/cryptoimpl/stream_aead.go: the chunks of a file, each sealed with its place.
pub mod Places
pub mod Order
use yandex_go_final_diploma.Prelude.{
  ℕ, ◌+◌, ◌%◌, ◌^◌, Bool, true, false, not, Option, none, some, List, [], ◌∷◌, ◌++◌, length, ◌==◌,
  if◌then◌else◌,
}
use yandex_go_final_diploma.Exec.{Exec, Result, ok, err, pure, ◌>>=◌, ◌>>◌}
use yandex_go_final_diploma.Server.Domain.{Bytes}
use yandex_go_final_diploma.Crypto.Bytes.{put_uint64}
use yandex_go_final_diploma.Crypto.Aead.{
  Aead, CryptoErr, invalid_key_size, invalid_stream_id, entropy_failed, open_failed,
  stream_finished, Entropy, bad_key,
}

abbrev pub stream_id_size : ℕ
stream_id_size = 16

unfoldable pub chunk_nonce : Bytes → ℕ → Bytes
unfolding put_uint64
chunk_nonce stream_id counter = stream_id ++ put_uint64 counter

unfoldable pub chunk_ad : Bytes → ℕ → Bool → Bytes
unfolding put_uint64
chunk_ad base_ad counter last = base_ad ++ put_uint64 counter ++ (if last then 1 else 0) ∷ []

-- `counter++` on `uint64`
abbrev pub next_counter : ℕ → ℕ
next_counter counter = (counter + 1) % 2 ^ 64

pub record StreamEncrypter : Type 0 where
  pub key : Bytes
  pub base_ad : Bytes
  pub stream_id : Bytes
  pub counter : ℕ

pub record StreamDecrypter : Type 0 where
  pub key : Bytes
  pub base_ad : Bytes
  pub stream_id : Bytes
  pub counter : ℕ
  pub done : Bool

abbrev pub started : Bytes → Bytes → Option Bytes → Result CryptoErr StreamEncrypter
started key base_ad none = err entropy_failed
started key base_ad (some id) =
    ok (record { key = key; base_ad = base_ad; stream_id = id; counter = 0 })

unfoldable pub new_stream_encrypter : Entropy → Bytes → Bytes → Result CryptoErr StreamEncrypter
new_stream_encrypter entropy key base_ad =
    if bad_key key then err invalid_key_size else started key base_ad (entropy stream_id_size)

unfoldable pub new_stream_decrypter : Bytes → Bytes → Bytes → Result CryptoErr StreamDecrypter
new_stream_decrypter key base_ad stream_id =
    if bad_key key
    then err invalid_key_size
    else (if not (length stream_id == stream_id_size)
        then err invalid_stream_id
        else ok (record {
          key = key;
          base_ad = base_ad;
          stream_id = stream_id;
          counter = 0;
          done = false;
        }))

module _ (x : Aead) where
  unfoldable pub seal_chunk : Bytes → Bool → Exec StreamEncrypter CryptoErr Bytes
  unfolding chunk_nonce chunk_ad
  seal_chunk plaintext last e = if bad_key e.key then (err invalid_key_size, e) else (
    ok (
        x.seal e.key (chunk_nonce e.stream_id e.counter) plaintext
          (chunk_ad e.base_ad e.counter last)),
    record e { counter = next_counter e.counter },
  )

  abbrev pub chunk_opened :
      Bool → Option Bytes → StreamDecrypter → Result CryptoErr Bytes × StreamDecrypter
  chunk_opened last none d = (err open_failed, d)
  chunk_opened last (some p) d =
      (ok p, record d { counter = next_counter d.counter; done = if last then true else d.done })

  unfoldable pub open_chunk : Bytes → Bool → Exec StreamDecrypter CryptoErr Bytes
  unfolding chunk_nonce chunk_ad
  open_chunk ciphertext last d =
      if d.done
      then (err stream_finished, d)
      else (if bad_key d.key
          then (err invalid_key_size, d)
          else chunk_opened last
              (x.open_sealed d.key (chunk_nonce d.stream_id d.counter) ciphertext
                (chunk_ad d.base_ad d.counter last))
              d)
