-- ===== src/Crypto/Examples/Runs.antt =====
-- Files, chunks and blobs at concrete inputs.
use yandex_go_final_diploma.Prelude.{ℕ, true, false, [], ◌∷◌, ◌++◌, ◌≡◌, ◌≢◌, refl, length, arith}
use yandex_go_final_diploma.Exec.{ok, err}
use yandex_go_final_diploma.Server.Domain.{Bytes}
use yandex_go_final_diploma.Crypto.Bytes.{put_uint64, put_uint32}
use yandex_go_final_diploma.Crypto.Aead.{encrypt_with_ad, decrypt_with_ad, split_at, out_of_fuel}
use yandex_go_final_diploma.Crypto.Aead.RoundTrip.{decrypt-encrypt, decrypt-bound}
use yandex_go_final_diploma.Crypto.Stream.{
  StreamEncrypter, StreamDecrypter, new_stream_encrypter, new_stream_decrypter, chunk_nonce,
  chunk_ad, seal_chunk, open_chunk,
}
use yandex_go_final_diploma.Crypto.Stream.Places.{open_chunk-seal}
use yandex_go_final_diploma.Crypto.Stream.Order.{seal_all, open_all, open_chunk-InOrder}
use yandex_go_final_diploma.Crypto.Binary.{Reads, more, eof, decode_stream}
use yandex_go_final_diploma.Crypto.Binary.RoundTrip.{is_readable}
use yandex_go_final_diploma.Crypto.Binary.Files.{Carries, is_readable_file, decode-encode}
use yandex_go_final_diploma.Crypto.Binary.Ends.{decode_stream-ends}
use yandex_go_final_diploma.Crypto.Examples.Padded.{
  padded, padded_laws, zeros, no_entropy, no_entropy_fills,
}
use yandex_go_final_diploma.Crypto.Examples.Prefixed.{prefixed, prefixed-Authentic}

abbrev a_key : Bytes
a_key = zeros 32

abbrev a_file : Reads
a_file = (1 ∷ 2 ∷ [], more) ∷ (3 ∷ [], more) ∷ (4 ∷ [], eof) ∷ []

abbrev a_sender : StreamEncrypter
a_sender = record { key = a_key; base_ad = 9 ∷ []; stream_id = zeros 16; counter = 0 }

a_sender_starts : new_stream_encrypter no_entropy a_key (9 ∷ []) ≡ ok a_sender
unfolding new_stream_encrypter
a_sender_starts = refl

a_file_readable : is_readable_file a_file ≡ true
unfolding is_readable_file is_readable
a_file_readable = refl

decode-encode_example :
    Carries padded a_key
      (9 ∷ [])
      (record { encrypter = a_sender; writer = record { written = []; faults = [] } })
      a_file
decode-encode_example =
    decode-encode padded padded_laws a_key (9 ∷ []) a_file no_entropy a_sender no_entropy_fills
      a_sender_starts a_file_readable (omega arith, (omega arith, (omega arith, tt)))

a_blob_made :
    encrypt_with_ad padded no_entropy a_key (5 ∷ 6 ∷ []) (1 ∷ []) ≡ ok (zeros 40 ++ 5 ∷ 6 ∷ [])
unfolding encrypt_with_ad padded
a_blob_made = refl

decrypt-encrypt_example :
    (decrypt_with_ad padded a_key (zeros 40 ++ 5 ∷ 6 ∷ []) (1 ∷ []) ≡ ok (5 ∷ 6 ∷ []))
    × (length (zeros 40 ++ 5 ∷ 6 ∷ []) ≡ 42)
decrypt-encrypt_example =
    decrypt-encrypt padded a_key (5 ∷ 6 ∷ []) (1 ∷ []) (zeros 40 ++ 5 ∷ 6 ∷ []) no_entropy
      no_entropy_fills padded_laws a_blob_made

abbrev a_blob : Bytes
a_blob = zeros 24 ++ (24 ∷ zeros 24 ++ (1 ∷ 1 ∷ 5 ∷ []))

a_bound_blob : encrypt_with_ad prefixed no_entropy a_key (5 ∷ []) (1 ∷ []) ≡ ok a_blob
unfolding encrypt_with_ad padded
a_bound_blob = refl

a_blob_opens : decrypt_with_ad prefixed a_key a_blob (1 ∷ []) ≡ ok (5 ∷ [])
unfolding decrypt_with_ad split_at
a_blob_opens = refl

decrypt-bound_example : ◌≡◌ {A = Bytes} (1 ∷ []) (1 ∷ [])
decrypt-bound_example =
    decrypt-bound prefixed a_key (5 ∷ []) (1 ∷ []) a_blob no_entropy no_entropy_fills
      prefixed-Authentic a_bound_blob (1 ∷ []) (5 ∷ []) a_blob_opens

abbrev a_chunk : Bytes
a_chunk =
    prefixed.seal a_key (zeros 16 ++ 0 ∷ 0 ∷ 0 ∷ 0 ∷ 0 ∷ 0 ∷ 0 ∷ 3 ∷ []) (7 ∷ [])
      (9 ∷ 0 ∷ 0 ∷ 0 ∷ 0 ∷ 0 ∷ 0 ∷ 0 ∷ 3 ∷ 1 ∷ [])

a_chunk_sealed :
    (seal_chunk prefixed
      (7 ∷ [])
      true
      (record { key = a_key; base_ad = 9 ∷ []; stream_id = zeros 16; counter = 3 })).0
    ≡ ok a_chunk
unfolding seal_chunk chunk_nonce chunk_ad put_uint64 put_uint32
a_chunk_sealed = refl

a_chunk_opened :
    (open_chunk prefixed a_chunk true
      (record { key = a_key; base_ad = 9 ∷ []; stream_id = zeros 16; counter = 3; done = false })).0
    ≡ ok (7 ∷ [])
unfolding open_chunk chunk_nonce chunk_ad put_uint64 put_uint32
a_chunk_opened = refl

open_chunk-seal_example : (zeros 16 ≡ zeros 16) × (◌≡◌ {A = ℕ} 3 3) × (true ≡ true)
open_chunk-seal_example =
    open_chunk-seal prefixed prefixed-Authentic a_key (9 ∷ []) (zeros 16) (zeros 16) 3 3 true true
      false (7 ∷ []) a_chunk (7 ∷ []) refl (omega arith) (omega arith) a_chunk_sealed a_chunk_opened

-- A stream from its start: one chunk is sealed and opened, and then another one.
abbrev sender : StreamEncrypter
sender = record { key = a_key; base_ad = 9 ∷ []; stream_id = zeros 16; counter = 0 }

abbrev receiver : StreamDecrypter
receiver = record { key = a_key; base_ad = 9 ∷ []; stream_id = zeros 16; counter = 0; done = false }

abbrev first_chunk : Bytes
first_chunk = prefixed.seal a_key (zeros 16 ++ zeros 8) (5 ∷ []) (9 ∷ zeros 8 ++ 0 ∷ [])

abbrev second_chunk : Bytes
second_chunk =
    prefixed.seal a_key (zeros 16 ++ zeros 7 ++ 1 ∷ []) (7 ∷ []) (9 ∷ zeros 7 ++ 1 ∷ 1 ∷ [])

sender_started : new_stream_encrypter no_entropy a_key (9 ∷ []) ≡ ok sender
unfolding new_stream_encrypter
sender_started = refl

receiver_started : new_stream_decrypter a_key (9 ∷ []) (zeros 16) ≡ ok receiver
unfolding new_stream_decrypter
receiver_started = refl

first_sealed : (seal_all prefixed ((5 ∷ [], false) ∷ []) sender).0 ≡ ok (first_chunk ∷ [])
unfolding seal_all seal_chunk chunk_nonce chunk_ad put_uint64 put_uint32
first_sealed = refl

first_opened : (open_all prefixed ((first_chunk, false) ∷ []) receiver).0 ≡ ok ((5 ∷ []) ∷ [])
unfolding open_all open_chunk chunk_nonce chunk_ad put_uint64 put_uint32
first_opened = refl

second_sealed :
    (seal_chunk prefixed (7 ∷ []) true (seal_all prefixed ((5 ∷ [], false) ∷ []) sender).1).0
    ≡ ok second_chunk
unfolding seal_all seal_chunk chunk_nonce chunk_ad put_uint64 put_uint32
second_sealed = refl

second_opened :
    (open_chunk prefixed second_chunk true
      (open_all prefixed ((first_chunk, false) ∷ []) receiver).1).0
    ≡ ok (7 ∷ [])
unfolding open_all open_chunk chunk_nonce chunk_ad put_uint64 put_uint32
second_opened = refl

open_chunk-InOrder_example : (zeros 16 ≡ zeros 16) × (◌≡◌ {A = ℕ} 1 1) × (true ≡ true)
open_chunk-InOrder_example =
    open_chunk-InOrder prefixed prefixed-Authentic no_entropy a_key (9 ∷ []) (zeros 16) sender
      receiver no_entropy_fills sender_started receiver_started ((5 ∷ [], false) ∷ [])
      ((first_chunk, false) ∷ []) (first_chunk ∷ []) ((5 ∷ []) ∷ []) (omega arith) (omega arith)
      first_sealed first_opened (7 ∷ []) second_chunk (7 ∷ []) true true second_sealed second_opened

decode_stream-ends_example :
    (decode_stream padded a_key []
      (record { bytes = zeros 9; fails = true })
      (record { written = []; faults = [] })).0
    ≢ err out_of_fuel
decode_stream-ends_example =
    decode_stream-ends padded a_key [] (record { bytes = zeros 9; fails = true })
      (record { written = []; faults = [] })
