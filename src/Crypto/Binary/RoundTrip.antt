-- ===== src/Crypto/Binary/RoundTrip.antt =====
-- A file that was encoded is decoded to its bytes.
use yandex_go_final_diploma.Prelude.{
  ℕ, zero, suc, ◌≤◌, Bool, true, false, List, [], ◌∷◌, ◌++◌, ◌≡◌, ap, ◌∙◌, length, arith, All,
}
use yandex_go_final_diploma.Exec.{ok, continue, ◌>>◌}
use yandex_go_final_diploma.Server.Domain.{Bytes}
use yandex_go_final_diploma.Crypto.Aead.{Aead, AeadLaws, bad_key}
use yandex_go_final_diploma.Crypto.Lists.{append_assoc}
use yandex_go_final_diploma.Crypto.Frame.{content_read, read_frame}
use yandex_go_final_diploma.Crypto.Frame.RoundTrip.{frame, read_frame-write}
use yandex_go_final_diploma.Crypto.Stream.{next_counter, chunk_nonce, chunk_ad}
use yandex_go_final_diploma.Crypto.Binary.{
  ReadEnd, more, eof, failed, Reads, encode_rest, decode_turn, decode_rest, next_frame, save_chunk,
}
use yandex_go_final_diploma.Crypto.Binary.Chunks.{
  cipher, wire, first, behind, wire_first, sending, receiving, finished, send_chunk-writes,
  save_chunk-writes, save_last-writes,
}

-- No read to come fails, before the one that comes to the end.
unfoldable pub is_readable : ReadEnd → Reads → Bool
is_readable eof reads = true
is_readable failed reads = false
is_readable more [] = true
is_readable more ((bytes, end) ∷ reads) = is_readable end reads

-- The chunks of a file: all but the last, and the last.
unfoldable pub chunks : Bytes → ReadEnd → Reads → List Bytes × Bytes
chunks p eof reads = ([], p)
chunks p failed reads = ([], p)
chunks p more [] = (p ∷ [], [])
chunks p more ((bytes, end) ∷ reads) = let (ps, final) = chunks bytes end reads in (p ∷ ps, final)

unfoldable pub join : List Bytes → Bytes → Bytes
join [] final = final
join (p ∷ ps) final = p ++ join ps final

-- The content of the file: what the reads give up to the first that comes to the end.
unfoldable pub content : Bytes → ReadEnd → Reads → Bytes
content p eof reads = p
content p failed reads = p
content p more [] = p
content p more ((bytes, end) ∷ reads) = p ++ content bytes end reads

-- The counter after the chunks and the last one.
abbrev pub counted : ℕ → List Bytes → ℕ
counted c [] = next_counter c
counted c (p ∷ ps) = counted (next_counter c) ps

-- No more bytes than the buffer holds.
abbrev pub Small : Bytes → Type 0
Small p = length p ≤ 262144

module _ (x : Aead) (key base id : Bytes) (k : bad_key key ≡ false) where
  pub encode_rest-writes :
      (p : Bytes) (end : ReadEnd) (reads : Reads) (c : ℕ) (written : Bytes)
      → is_readable end reads ≡ true
      → encode_rest x p end reads (sending x key base id c written) ≡ (
        ok tt,
        sending x key base id
            (counted c (chunks p end reads).0)
            (written ++ wire x key base id c (chunks p end reads).0 (chunks p end reads).1),
      )
  unfolding encode_rest is_readable chunks
  encode_rest-writes p eof reads c written h = send_chunk-writes x key base id k p true c written
  encode_rest-writes p failed reads c written h = ground (arith, h)
  encode_rest-writes p more [] c written h = rw (
    send_chunk-writes x key base id k p false c written,
    send_chunk-writes x key base id k [] true (next_counter c)
        (written ++ frame (cipher x key base id c p false)),
    append_assoc written (frame (cipher x key base id c p false))
        (frame (cipher x key base id (next_counter c) [] true)),
  )
  encode_rest-writes p more ((bytes, end) ∷ reads) c written h = rw (
    send_chunk-writes x key base id k p false c written,
    encode_rest-writes bytes end reads (next_counter c)
        (written ++ frame (cipher x key base id c p false)) h,
    append_assoc written (frame (cipher x key base id c p false))
        (wire x key base id (next_counter c) (chunks bytes end reads).0 (chunks bytes end reads).1),
  )

  module _ (laws : AeadLaws x) where
    cipher_fits :
        (c : ℕ) (p : Bytes) (last : Bool)
        → Small p
        → length (cipher x key base id c p last) ≤ 16777216
    cipher_fits c p last h =
        omega (arith, h, laws.tag key (chunk_nonce id c) p (chunk_ad base c last))

    first_fits :
        (c : ℕ) (ps : List Bytes) (final : Bytes)
        → All Small ps
        → Small final
        → length (first x key base id c ps final) ≤ 16777216
    first_fits c [] final all h = cipher_fits c final true h
    first_fits c (p ∷ ps) final all h = cipher_fits c p false all.0

    -- The loop is handed the chunk behind the pending one.
    pub frame_behind :
        (c : ℕ) (ps : List Bytes) (final written : Bytes) (c' : ℕ)
        → All Small ps
        → Small final
        → next_frame (receiving x key base id c' (wire x key base id c ps final) written) ≡ (
          ok (content_read (first x key base id c ps final)),
          receiving x key base id c' (behind x key base id c ps final) written,
        )
    unfolding next_frame
    frame_behind c ps final written c' all h = rw (
      wire_first x key base id c ps final,
      read_frame-write (first x key base id c ps final) (behind x key base id c ps final) false
          (first_fits c ps final all h),
    )

    then_rest :
        (p : Bytes) (ps : List Bytes) (final : Bytes) (c fuel : ℕ) (written : Bytes)
        → decode_rest x (suc fuel) (first x key base id (next_counter c) ps final) (
            receiving x key base id
              (next_counter c)
              (behind x key base id (next_counter c) ps final)
              (written ++ p))
          ≡ (
            ok tt,
            finished x key base id
                (counted (next_counter c) ps)
                []
                ((written ++ p) ++ join ps final),
          )
        → (save_chunk x (cipher x key base id c p false) false
              >> decode_rest x (suc fuel) (first x key base id (next_counter c) ps final))
            (receiving x key base id c (behind x key base id (next_counter c) ps final) written)
          ≡ (
            ok tt,
            finished x key base id
                (counted (next_counter c) ps)
                []
                (written ++ (p ++ join ps final)),
          )
    then_rest p ps final c fuel written rest = rw (
      save_chunk-writes x key base id k laws p c (behind x key base id (next_counter c) ps final)
          written,
      rest,
      append_assoc written p (join ps final),
    )

    pub decode_rest-reads :
        (ps : List Bytes) (final : Bytes) (c fuel : ℕ) (written : Bytes)
        → All Small ps
        → Small final
        → length ps ≤ fuel
        → decode_rest x
            (suc fuel)
            (first x key base id c ps final)
            (receiving x key base id c (behind x key base id c ps final) written)
          ≡ (ok tt, finished x key base id (counted c ps) [] (written ++ join ps final))
    unfolding decode_rest next_frame read_frame decode_turn join
    decode_rest-reads [] final c fuel written all h le =
        save_last-writes x key base id k laws final c [] written
    decode_rest-reads (p ∷ ps) final c zero written all h le = ground (arith, le)
    decode_rest-reads (p ∷ ps) final c (suc fuel) written all h le =
        ap
          (λ r.
            continue r.0
              (decode_turn x (λ next. decode_rest x (suc fuel) next)
                (cipher x key base id c p false))
              r.1)
          (frame_behind (next_counter c) ps final written c all.1 h)
        ∙ then_rest p ps final c fuel written (
            decode_rest-reads ps final (next_counter c) fuel (written ++ p) all.1 h
              (omega (arith, le)))
