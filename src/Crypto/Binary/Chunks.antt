-- ===== src/Crypto/Binary/Chunks.antt =====
-- The bytes on the wire for a file in chunks, and one chunk on each side.
use yandex_go_final_diploma.Prelude.{ℕ, Bool, true, false, List, [], ◌∷◌, ◌++◌, ◌≡◌, refl, sym}
use yandex_go_final_diploma.Exec.{ok}
use yandex_go_final_diploma.Server.Domain.{Bytes}
use yandex_go_final_diploma.Crypto.Aead.{Aead, AeadLaws, bad_key}
use yandex_go_final_diploma.Crypto.Lists.{append_nil}
use yandex_go_final_diploma.Crypto.Frame.{write}
use yandex_go_final_diploma.Crypto.Frame.RoundTrip.{frame, write_frame-appends}
use yandex_go_final_diploma.Crypto.Stream.{
  chunk_nonce, chunk_ad, next_counter, seal_chunk, open_chunk,
}
use yandex_go_final_diploma.Crypto.Binary.{
  Encoding, Decoding, encrypting, writing, decrypting, saving, send_chunk, save_chunk,
}

module _ (x : Aead) (key base id : Bytes) where
  -- The chunk in its place.
  abbrev pub cipher : ℕ → Bytes → Bool → Bytes
  cipher c p last = x.seal key (chunk_nonce id c) p (chunk_ad base c last)

  -- All chunks but the last, and the last.
  abbrev pub wire : ℕ → List Bytes → Bytes → Bytes
  wire c [] final = frame (cipher c final true)
  wire c (p ∷ ps) final = frame (cipher c p false) ++ wire (next_counter c) ps final

  -- The first chunk, and what is behind it.
  abbrev pub first : ℕ → List Bytes → Bytes → Bytes
  first c [] final = cipher c final true
  first c (p ∷ ps) final = cipher c p false

  abbrev pub behind : ℕ → List Bytes → Bytes → Bytes
  behind c [] final = []
  behind c (p ∷ ps) final = wire (next_counter c) ps final

  pub wire_first :
      (c : ℕ) (ps : List Bytes) (final : Bytes)
      → wire c ps final ≡ frame (first c ps final) ++ behind c ps final
  wire_first c [] final = sym (append_nil (frame (cipher c final true)))
  wire_first c (p ∷ ps) final = refl

  abbrev pub sending : ℕ → Bytes → Encoding
  sending c written = record {
    encrypter = record { key = key; base_ad = base; stream_id = id; counter = c };
    writer = record { written = written; faults = [] };
  }

  abbrev pub receiving : ℕ → Bytes → Bytes → Decoding
  receiving c bytes written = record {
    decrypter = record { key = key; base_ad = base; stream_id = id; counter = c; done = false };
    source = record { bytes = bytes; fails = false };
    writer = record { written = written; faults = [] };
  }

  -- The device after the last chunk.
  abbrev pub finished : ℕ → Bytes → Bytes → Decoding
  finished c bytes written = record {
    decrypter = record { key = key; base_ad = base; stream_id = id; counter = c; done = true };
    source = record { bytes = bytes; fails = false };
    writer = record { written = written; faults = [] };
  }

  module _ (k : bad_key key ≡ false) where
    pub send_chunk-writes :
        (p : Bytes) (last : Bool) (c : ℕ) (written : Bytes)
        → send_chunk x p last (sending c written)
          ≡ (ok tt, sending (next_counter c) (written ++ frame (cipher c p last)))
    unfolding send_chunk encrypting writing seal_chunk
    send_chunk-writes p last c written = rw (k, write_frame-appends (cipher c p last) written)

    module _ (laws : AeadLaws x) where
      pub save_chunk-writes :
          (p : Bytes) (c : ℕ) (bytes written : Bytes)
          → save_chunk x (cipher c p false) false (receiving c bytes written)
            ≡ (ok tt, receiving (next_counter c) bytes (written ++ p))
      unfolding save_chunk decrypting saving open_chunk write
      save_chunk-writes p c bytes written =
          rw (k, laws.opens key (chunk_nonce id c) p (chunk_ad base c false))

      pub save_last-writes :
          (p : Bytes) (c : ℕ) (bytes written : Bytes)
          → save_chunk x (cipher c p true) true (receiving c bytes written)
            ≡ (ok tt, finished (next_counter c) bytes (written ++ p))
      unfolding save_chunk decrypting saving open_chunk write
      save_last-writes p c bytes written =
          rw (k, laws.opens key (chunk_nonce id c) p (chunk_ad base c true))
