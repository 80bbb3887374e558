-- ===== src/Crypto/Binary/Ends.antt =====
-- The decoder comes to an end.
use yandex_go_final_diploma.Prelude.{
  ℕ, zero, suc, ◌≤◌, ◌<◌, Bool, true, false, Option, none, some, List, [], ◌∷◌, ◌≡◌, ◌≢◌, refl, sym,
  ap, subst, length, arith, Bool-cases, Option-cases, inl, inr, ltb,
}
use yandex_go_final_diploma.Exec.{Exec, Result, ok, err, continue}
use yandex_go_final_diploma.Server.Domain.{Bytes}
use yandex_go_final_diploma.Crypto.Bytes.{uint32}
use yandex_go_final_diploma.Crypto.Aead.{Aead, CryptoErr, out_of_fuel, split_at}
use yandex_go_final_diploma.Crypto.Frame.{
  Writer, Source, Frame, content_read, at_end, too_large, broken, read_data, read_sized,
  read_length, read_frame, cut_short, max_frame_size, write,
}
use yandex_go_final_diploma.Crypto.Stream.{
  StreamDecrypter, open_chunk, chunk_opened, new_stream_decrypter,
}
use yandex_go_final_diploma.Crypto.Binary.{
  Decoding, next_frame, save_chunk, decrypting, saving, decode_turn, decode_rest, decode_first,
  decode_with, decode_after, decode_stream,
}

abbrev rest_of : Option (Bytes × Bytes) → Bytes
rest_of none = []
rest_of (some (_, ys)) = ys

-- The bytes behind a place are no more than all of them.
rest_of-split_at : (n : ℕ) (bs : Bytes) → length (rest_of (split_at n bs)) ≤ length bs
unfolding split_at
rest_of-split_at zero bs = omega arith
rest_of-split_at (suc n) [] = omega arith
rest_of-split_at (suc n) (b ∷ bs) = elim (Option-cases (split_at n bs)) [
  | inl e ↦ rw e (omega arith)
  | inr (p, e) ↦
      rw e (omega (arith, subst (λ o. length (rest_of o) ≤ length bs) e (rest_of-split_at n bs)))
]

read_data-shrinks :
    (s : Source) (rest : Bytes) (o : Option (Bytes × Bytes))
    → length (rest_of o) ≤ length rest
    → length (read_data s rest o).1.bytes ≤ length rest
read_data-shrinks s rest none h = omega arith
read_data-shrinks s rest (some p) h = h

read_sized-shrinks :
    (s : Source) (n : ℕ) (rest : Bytes) → length (read_sized s n rest).1.bytes ≤ length rest
unfolding read_sized
read_sized-shrinks s n rest = elim (Bool-cases (ltb max_frame_size n)) [
  | inl e ↦ rw e (omega arith)
  | inr e ↦ rw e (read_data-shrinks s rest (split_at n rest) (rest_of-split_at n rest))
]

cut_short-no_content : (fails : Bool) (rest c : Bytes) → cut_short fails rest ≢ content_read c
cut_short-no_content true rest c h = ground (arith, h)
cut_short-no_content false [] c h = ground (arith, h)
cut_short-no_content false (b ∷ rest) c h = ground (arith, h)

read_length-shrinks :
    (s : Source) (bs c : Bytes)
    → (read_length s bs).0 ≡ content_read c
    → length (read_length s bs).1.bytes < length bs
read_length-shrinks s (a ∷ b ∷ d ∷ e ∷ rest) c h =
    omega (arith, read_sized-shrinks s (uint32 a b d e) rest)
read_length-shrinks s [] c h = elim (cut_short-no_content s.fails [] c h) [ ]
read_length-shrinks s (a ∷ []) c h = omega arith
read_length-shrinks s (a ∷ b ∷ []) c h = omega arith
read_length-shrinks s (a ∷ b ∷ d ∷ []) c h = omega arith

abbrev Ends : {S : Type 0} → Result CryptoErr (Unit {0}) × S → Type 0
Ends r = r.0 ≢ err out_of_fuel

module _ (x : Aead) where
  open_chunk-ends :
      (ct : Bytes) (last : Bool) (d : StreamDecrypter)
      → (open_chunk x ct last d).0 ≢ err out_of_fuel
  unfolding open_chunk
  open_chunk-ends ct last d h = ground (arith, h)

  chunk_opened-ends :
      (last : Bool) (o : Option Bytes) (d : StreamDecrypter)
      → (chunk_opened x last o d).0 ≢ err out_of_fuel
  chunk_opened-ends last none d h = ground (arith, h)
  chunk_opened-ends last (some p) d h = ground (arith, h)

  continue-ends :
      {A : Type 0} (r : Result CryptoErr A) (s : Decoding)
      (k : A → Exec Decoding CryptoErr (Unit {0}))
      → r ≢ err out_of_fuel
      → ((a : A) → (k a s).0 ≢ err out_of_fuel)
      → (continue r k s).0 ≢ err out_of_fuel
  continue-ends (ok a) s k first next h = next a h
  continue-ends (err e) s k first next h =
      first (ap (λ r. elim r [ ok _ ↦ err e | err f ↦ err f ]) h)

  write-ends :
      (bs : Bytes) (w : Writer) (faults : List Bool)
      → (write bs (record w { faults = faults })).0 ≢ err out_of_fuel
  unfolding write
  write-ends bs w [] h = ground (arith, h)
  write-ends bs w (true ∷ rest) h = ground (arith, h)
  write-ends bs w (false ∷ rest) h = ground (arith, h)

  save_chunk-ends :
      (ct : Bytes) (last : Bool) (s : Decoding) → (save_chunk x ct last s).0 ≢ err out_of_fuel
  unfolding save_chunk decrypting saving
  save_chunk-ends ct last s =
      continue-ends (open_chunk x ct last s.decrypter).0
        (record s { decrypter = (open_chunk x ct last s.decrypter).1 }) (λ pt. saving (write pt))
        (open_chunk-ends ct last s.decrypter) (λ pt. write-ends pt s.writer s.writer.faults)

  continue-source :
      {A : Type 0} (r : Result CryptoErr A) (s : Decoding)
      (k : A → Exec Decoding CryptoErr (Unit {0}))
      → ((a : A) → (k a s).1.source ≡ s.source)
      → (continue r k s).1.source ≡ s.source
  continue-source (ok a) s k next = next a
  continue-source (err e) s k next = refl

  save_chunk-source :
      (ct : Bytes) (last : Bool) (s : Decoding) → (save_chunk x ct last s).1.source ≡ s.source
  unfolding save_chunk decrypting saving
  save_chunk-source ct last s =
      continue-source (open_chunk x ct last s.decrypter).0
        (record s { decrypter = (open_chunk x ct last s.decrypter).1 }) (λ pt. saving (write pt))
        (λ pt. refl)

  turn-ends :
      (rest : Bytes → Exec Decoding CryptoErr (Unit {0})) (pending : Bytes) (f : Frame)
      (s : Decoding) (fuel : ℕ)
      → ((next : Bytes) (s' : Decoding)
          → length s'.source.bytes < fuel
          → (rest next s').0 ≢ err out_of_fuel)
      → ((c : Bytes) → f ≡ content_read c → length s.source.bytes < fuel)
      → (decode_turn x rest pending f s).0 ≢ err out_of_fuel
  unfolding decode_turn
  turn-ends rest pending (content_read next) s fuel ends short =
      continue-ends (save_chunk x pending false s).0 (save_chunk x pending false s).1
        (λ _. rest next) (save_chunk-ends pending false s)
        (λ _. ends next (save_chunk x pending false s).1 (
          subst (λ b. length b.bytes < fuel) (sym (save_chunk-source pending false s))
            (short next refl)))
  turn-ends rest pending at_end s fuel ends short = save_chunk-ends pending true s
  turn-ends rest pending too_large s fuel ends short = λ h. ground (arith, h)
  turn-ends rest pending broken s fuel ends short = λ h. ground (arith, h)

  decode_rest-ends :
      (fuel : ℕ) (pending : Bytes) (s : Decoding)
      → length s.source.bytes < fuel
      → (decode_rest x fuel pending s).0 ≢ err out_of_fuel
  unfolding decode_rest next_frame read_frame
  decode_rest-ends zero pending s le = omega (arith, le)
  decode_rest-ends (suc fuel) pending s le =
      turn-ends (λ next. decode_rest x fuel next) pending (read_length s.source s.source.bytes).0
        (record s { source = (read_length s.source s.source.bytes).1 }) fuel
        (λ next s' short. decode_rest-ends fuel next s' short)
        (λ c h. omega (arith, le, read_length-shrinks s.source s.source.bytes c h))

  first-ends : (f : Frame) (s : Decoding) → (decode_first x f s).0 ≢ err out_of_fuel
  unfolding decode_first
  first-ends (content_read pending) s =
      decode_rest-ends (suc (length s.source.bytes)) pending s (omega arith)
  first-ends at_end s = λ h. ground (arith, h)
  first-ends too_large s = λ h. ground (arith, h)
  first-ends broken s = λ h. ground (arith, h)

  with-ends :
      (source : Source) (writer : Writer) (r : Result CryptoErr StreamDecrypter)
      → r ≢ err out_of_fuel
      → (decode_with x source writer r).0 ≢ err out_of_fuel
  unfolding next_frame
  with-ends source writer (err e) new =
      λ h. new (ap (λ r. elim r [ ok _ ↦ err e | err f ↦ err f ]) h)
  with-ends source writer (ok d) new =
      first-ends (read_frame source).0
        (record { decrypter = d; source = (read_frame source).1; writer = writer })

  new-ends : (key base id : Bytes) → new_stream_decrypter key base id ≢ err out_of_fuel
  unfolding new_stream_decrypter
  new-ends key base id h = ground (arith, h)

  after-ends :
      (key base : Bytes) (writer : Writer) (f : Frame × Source)
      → (decode_after x key base writer f).0 ≢ err out_of_fuel
  after-ends key base writer (content_read id, source) =
      with-ends source writer _ (new-ends key base id)
  after-ends key base writer (at_end, source) = λ h. ground (arith, h)
  after-ends key base writer (too_large, source) = λ h. ground (arith, h)
  after-ends key base writer (broken, source) = λ h. ground (arith, h)

  -- Whatever bytes come and however they break off, the decoder ends with a result of its own: the turns
  -- that the length of the source allows are enough.
  pub decode_stream-ends :
      (key base : Bytes) (source : Source) (writer : Writer)
      → (decode_stream x key base source writer).0 ≢ err out_of_fuel
  unfolding decode_stream
  decode_stream-ends key base source writer = after-ends key base writer (read_frame source)
