-- ===== src/Crypto/Binary/Files.antt =====
-- A whole file, from its reads to its bytes on the other side.
use yandex_go_final_diploma.Prelude.{
  ℕ, ◌≤◌, ◌<◌, Bool, true, false, Option, none, some, List, [], ◌∷◌, ◌++◌, ◌≡◌, refl, sym, ap, ◌∙◌,
  subst, length, ◌==◌, if◌then◌else◌, arith, All, Bool-cases, inl, inr,
}
use yandex_go_final_diploma.Exec.{ok, err, continue, ◌>>=◌, ◌>>◌}
use yandex_go_final_diploma.Exec.Returns.{ok-injective}
use yandex_go_final_diploma.Server.Domain.{Bytes}
use yandex_go_final_diploma.Crypto.Aead.{Aead, AeadLaws, invalid_key_size, Entropy, bad_key}
use yandex_go_final_diploma.Crypto.Bytes.{put_uint32}
use yandex_go_final_diploma.Crypto.Lists.{append_nil, length-append}
use yandex_go_final_diploma.Crypto.Frame.{write_frame}
use yandex_go_final_diploma.Crypto.Frame.RoundTrip.{frame, write_frame-appends, read_frame-write}
use yandex_go_final_diploma.Crypto.Stream.{
  StreamEncrypter, new_stream_encrypter, new_stream_decrypter, started, stream_id_size,
  next_counter,
}
use yandex_go_final_diploma.Crypto.Binary.{
  Encoding, ReadEnd, more, eof, failed, Reads, encode_rest, encode_stream, decode_first,
  decode_stream, next_frame, writing,
}
use yandex_go_final_diploma.Crypto.Binary.Chunks.{
  cipher, wire, behind, sending, receiving, finished,
}
use yandex_go_final_diploma.Crypto.Binary.RoundTrip.{
  is_readable, chunks, join, content, encode_rest-writes, decode_rest-reads, frame_behind, counted,
  Small,
}

-- Every read gives at most a buffer of bytes.
abbrev pub Buffered : Reads → Type 0
Buffered reads = All (λ r. length r.0 ≤ 262144) reads

-- The bytes of a file, and whether it is read without a failure.
unfoldable pub file : Reads → Bytes
unfolding content
file [] = []
file ((bytes, end) ∷ reads) = content bytes end reads

unfoldable pub is_readable_file : Reads → Bool
unfolding is_readable
is_readable_file [] = true
is_readable_file ((bytes, end) ∷ reads) = is_readable end reads

join-chunks :
    (p : Bytes) (end : ReadEnd) (reads : Reads)
    → join (chunks p end reads).0 (chunks p end reads).1 ≡ content p end reads
unfolding join chunks content
join-chunks p eof reads = refl
join-chunks p failed reads = refl
join-chunks p more [] = append_nil p
join-chunks p more ((bytes, end) ∷ reads) = ap (λ r. p ++ r) (join-chunks bytes end reads)

chunks-Small :
    (p : Bytes) (end : ReadEnd) (reads : Reads)
    → Small p
    → Buffered reads
    → All Small (chunks p end reads).0 × Small (chunks p end reads).1
unfolding chunks
chunks-Small p eof reads h all = (tt, h)
chunks-Small p failed reads h all = (tt, h)
chunks-Small p more [] h all = ((h, tt), omega arith)
chunks-Small p more ((bytes, end) ∷ reads) h all =
    let rest = chunks-Small bytes end reads all.0 all.1 in ((h, rest.0), rest.1)

module _ (x : Aead) (key base id : Bytes) where
  frame_long : (c : Bytes) → 0 < length (frame c)
  unfolding put_uint32
  frame_long c = omega arith

  wire_long :
      (c : ℕ) (ps : List Bytes) (final : Bytes) → length ps < length (wire x key base id c ps final)
  wire_long c [] final = frame_long _
  wire_long c (p ∷ ps) final = omega (
    arith,
    length-append (frame _) (wire x key base id (next_counter c) ps final),
    frame_long (cipher x key base id c p false),
    wire_long (next_counter c) ps final,
  )

  behind_long :
      (c : ℕ) (ps : List Bytes) (final : Bytes)
      → length ps ≤ length (behind x key base id c ps final)
  behind_long c [] final = omega arith
  behind_long c (p ∷ ps) final = omega (arith, wire_long (next_counter c) ps final)

  module _ (k : bad_key key ≡ false) (laws : AeadLaws x)
      (i : (length id == stream_id_size) ≡ true) where
    id_fits : (n : ℕ) → (n == 16) ≡ true → n ≤ 16777216
    id_fits n h = ground (arith, h)

    -- The stream of a file in chunks, read from the loop's first frame on.
    decode_first-reads :
        (ps : List Bytes) (final : Bytes)
        → All Small ps
        → Small final
        → (next_frame >>= decode_first x)
            (receiving x key base id 0 (wire x key base id 0 ps final) [])
          ≡ (ok tt, finished x key base id (counted 0 ps) [] (join ps final))
    unfolding decode_first
    decode_first-reads ps final all h =
        ap (λ r. continue r.0 (decode_first x) r.1)
          (frame_behind x key base id k laws 0 ps final [] 0 all h)
        ∙ decode_rest-reads x key base id k laws ps final 0
            (length (behind x key base id 0 ps final)) [] all h (behind_long 0 ps final)

    decode_stream-reads :
        (ps : List Bytes) (final : Bytes)
        → All Small ps
        → Small final
        → decode_stream x key base
            (record { bytes = frame id ++ wire x key base id 0 ps final; fails = false })
            (record { written = []; faults = [] })
          ≡ (ok tt, record { written = join ps final; faults = [] })
    unfolding decode_stream new_stream_decrypter
    decode_stream-reads ps final all h = rw (
      read_frame-write id (wire x key base id 0 ps final) false (id_fits (length id) i),
      k,
      i,
      decode_first-reads ps final all h,
    )

  module _ (k : bad_key key ≡ false) where
    encode_stream-writes :
        (p : Bytes) (end : ReadEnd) (reads : Reads)
        → is_readable end reads ≡ true
        → (writing (write_frame id) >> encode_rest x p end reads) (sending x key base id 0 []) ≡ (
          ok tt,
          sending x key base id
              (counted 0 (chunks p end reads).0)
              (frame id ++ wire x key base id 0 (chunks p end reads).0 (chunks p end reads).1),
        )
    unfolding writing
    encode_stream-writes p end reads h =
        rw
          (write_frame-appends id [], encode_rest-writes x key base id k p end reads 0 (frame id) h)

-- The encoder says that it is done, and the decoder then gives the bytes of the file.
abbrev pub Carries : Aead → Bytes → Bytes → Encoding → Reads → Type 0
Carries x key base s reads =
    let (r, s') = encode_stream x reads s in
    (r ≡ ok tt)
    × (decode_stream x key base (record { bytes = s'.writer.written; fails = false })
          (record { written = []; faults = [] })
        ≡ (ok tt, record { written = file reads; faults = [] }))

module _ (x : Aead) (laws : AeadLaws x) (key base : Bytes) (reads : Reads) where
  carried :
      (id : Bytes) (p : Bytes) (end : ReadEnd) (rest : Reads)
      → bad_key key ≡ false
      → (length id == stream_id_size) ≡ true
      → is_readable end rest ≡ true
      → Small p
      → Buffered rest
      → Carries x key base (sending x key base id 0 []) ((p, end) ∷ rest)
  unfolding encode_stream file
  carried id p end rest k i h small all =
      let sizes = chunks-Small p end rest small all in
      let written = encode_stream-writes x key base id k p end rest h in
      (
        ap (λ r. r.0) written,
        ap
              (λ r.
                decode_stream x key base (record { bytes = r.1.writer.written; fails = false })
                  (record { written = []; faults = [] }))
              written
            ∙ decode_stream-reads x key base id k laws i _ _ sizes.0 sizes.1
            ∙ ap (λ bs. (ok tt, record { written = bs; faults = [] })) (join-chunks p end rest),
      )

  carried_file :
      (id : Bytes) (reads : Reads)
      → bad_key key ≡ false
      → (length id == stream_id_size) ≡ true
      → is_readable_file reads ≡ true
      → Buffered reads
      → Carries x key base (sending x key base id 0 []) reads
  unfolding is_readable_file is_readable encode_stream file content
  carried_file id [] k i h all = carried id [] eof [] k i refl (omega arith) tt
  carried_file id ((p, end) ∷ rest) k i h all = carried id p end rest k i h all.0 all.1

  same_size : (n : ℕ) → n ≡ 16 → (n == 16) ≡ true
  same_size n h = ground (arith, h)

  started-Carries :
      (id : Option Bytes) (e : StreamEncrypter)
      → bad_key key ≡ false
      → ((b : Bytes) → id ≡ some b → length b ≡ stream_id_size)
      → started key base id ≡ ok e
      → is_readable_file reads ≡ true
      → Buffered reads
      → Carries x key base
          (record { encrypter = e; writer = record { written = []; faults = [] } })
          reads
  started-Carries none e k fills h readable all = ground (arith, h)
  started-Carries (some id) e k fills h readable all =
      subst
        (λ e.
          Carries x key base
            (record { encrypter = e; writer = record { written = []; faults = [] } }) reads)
        (ok-injective h)
        (carried_file id reads k (same_size (length id) (fills id refl)) readable all)

  -- With a cipher that opens what it sealed and a source of randomness that fills its buffers: a file
  -- that is read without a failure, in buffers of 256 KiB, is encoded to its end, and the decoder under
  -- the same key and context writes exactly the bytes of the file.
  pub decode-encode :
      (entropy : Entropy) (e : StreamEncrypter)
      → ((n : ℕ) (b : Bytes) → entropy n ≡ some b → length b ≡ n)
      → new_stream_encrypter entropy key base ≡ ok e
      → is_readable_file reads ≡ true
      → Buffered reads
      → Carries x key base
          (record { encrypter = e; writer = record { written = []; faults = [] } })
          reads
  unfolding new_stream_encrypter
  decode-encode entropy e fills h readable all = elim (Bool-cases (bad_key key)) [
    | inl bad ↦ ground (arith, bad, h)
    | inr k ↦
        started-Carries (entropy stream_id_size) e k (fills stream_id_size)
          (sym (
              ap
                (λ b. if b then err invalid_key_size else started key base (entropy stream_id_size))
                k)
            ∙ h)
          readable all
  ]
