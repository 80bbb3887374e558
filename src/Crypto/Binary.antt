-- ===== src/Crypto/Binary.antt =====
-- encodeStream and decodeStream of internal/client/usecase/secret/binary.go.
pub mod Chunks
pub mod RoundTrip
pub mod Files
pub mod Ends
use yandex_go_final_diploma.Prelude.{
  ℕ, zero, suc, ◌*◌, Bool, true, false, Option, none, some, List, [], ◌∷◌, ◌++◌, length,
}
use yandex_go_final_diploma.Exec.{Exec, Result, ok, err, pure, raise, ◌>>=◌, ◌>>◌}
use yandex_go_final_diploma.Server.Domain.{Bytes}
use yandex_go_final_diploma.Crypto.Aead.{
  Aead, CryptoErr, read_failed, frame_too_large, empty_stream, out_of_fuel,
}
use yandex_go_final_diploma.Crypto.Frame.{
  Writer, Source, Frame, content_read, at_end, too_large, broken, write, write_frame, read_frame,
}
use yandex_go_final_diploma.Crypto.Stream.{
  StreamEncrypter, StreamDecrypter, seal_chunk, open_chunk, new_stream_decrypter,
}

-- How a `Read` of the file ends: `nil`, `io.EOF` or another error.
pub data ReadEnd : Type 0 where
  more eof failed : ReadEnd

-- The results of the reads to come. Behind the end of the list a read gives no bytes and `io.EOF`.
abbrev pub Reads : Type 0
Reads = List (Bytes × ReadEnd)

pub record Encoding : Type 0 where
  pub encrypter : StreamEncrypter
  pub writer : Writer

pub record Decoding : Type 0 where
  pub decrypter : StreamDecrypter
  pub source : Source
  pub writer : Writer

module _ {A : Type 0} where
  unfoldable pub encrypting : Exec StreamEncrypter CryptoErr A → Exec Encoding CryptoErr A
  encrypting m s = let (r, e) = m s.encrypter in (r, record s { encrypter = e })

  unfoldable pub writing : Exec Writer CryptoErr A → Exec Encoding CryptoErr A
  writing m s = let (r, w) = m s.writer in (r, record s { writer = w })

  unfoldable pub decrypting : Exec StreamDecrypter CryptoErr A → Exec Decoding CryptoErr A
  decrypting m s = let (r, d) = m s.decrypter in (r, record s { decrypter = d })

  unfoldable pub saving : Exec Writer CryptoErr A → Exec Decoding CryptoErr A
  saving m s = let (r, w) = m s.writer in (r, record s { writer = w })

unfoldable pub next_frame : Exec Decoding CryptoErr Frame
next_frame s = let (f, source) = read_frame s.source in (ok f, record s { source = source })

module _ (x : Aead) where
  unfoldable pub send_chunk : Bytes → Bool → Exec Encoding CryptoErr (Unit {0})
  send_chunk plaintext last = do
    ct ← encrypting (seal_chunk x plaintext last)
    writing (write_frame ct)

  -- The loop, with the bytes and the end of the read that is pending.
  unfoldable pub encode_rest : Bytes → ReadEnd → Reads → Exec Encoding CryptoErr (Unit {0})
  unfolding send_chunk
  encode_rest pending failed reads = raise read_failed
  encode_rest pending eof reads = send_chunk pending true
  encode_rest pending more [] = send_chunk pending false >> send_chunk [] true
  encode_rest pending more ((bytes, end) ∷ reads) =
      send_chunk pending false >> encode_rest bytes end reads

  -- The first read
  abbrev pub encode_reads : Reads → Exec Encoding CryptoErr (Unit {0})
  encode_reads [] = encode_rest [] eof []
  encode_reads ((bytes, end) ∷ reads) = encode_rest bytes end reads

  unfoldable pub encode_stream : Reads → Exec Encoding CryptoErr (Unit {0})
  unfolding encode_rest
  encode_stream reads s = (writing (write_frame s.encrypter.stream_id) >> encode_reads reads) s

  unfoldable pub save_chunk : Bytes → Bool → Exec Decoding CryptoErr (Unit {0})
  save_chunk pending last = do pt ← decrypting (open_chunk x pending last); saving (write pt)

  -- One turn, with the frame behind the pending one; `rest` is the loop.
  unfoldable pub decode_turn :
      (Bytes → Exec Decoding CryptoErr (Unit {0}))
      → Bytes
      → Frame
      → Exec Decoding CryptoErr (Unit {0})
  unfolding save_chunk
  decode_turn rest pending (content_read next) = save_chunk pending false >> rest next
  decode_turn rest pending at_end = save_chunk pending true
  decode_turn rest pending too_large = raise frame_too_large
  decode_turn rest pending broken = raise read_failed

  -- The loop. Each turn but the last takes the four bytes of a length from the source.
  unfoldable pub decode_rest : ℕ → Bytes → Exec Decoding CryptoErr (Unit {0})
  unfolding next_frame decode_turn
  decode_rest zero pending = raise out_of_fuel
  decode_rest (suc fuel) pending =
      next_frame >>= decode_turn (λ next. decode_rest fuel next) pending

  -- The frame behind the stream's id is the first one pending.
  unfoldable pub decode_first : Frame → Exec Decoding CryptoErr (Unit {0})
  unfolding decode_rest
  decode_first (content_read pending) s = decode_rest (suc (length s.source.bytes)) pending s
  decode_first at_end s = (err empty_stream, s)
  decode_first too_large s = (err frame_too_large, s)
  decode_first broken s = (err read_failed, s)

  abbrev pub decode_with :
      Source → Writer → Result CryptoErr StreamDecrypter → Result CryptoErr (Unit {0}) × Writer
  decode_with source writer (err e) = (err e, writer)
  decode_with source writer (ok d) =
      let (r, s) =
        (next_frame >>= decode_first)
          (record { decrypter = d; source = source; writer = writer }) in
      (r, s.writer)

  abbrev pub decode_after :
      Bytes → Bytes → Writer → Frame × Source → Result CryptoErr (Unit {0}) × Writer
  decode_after key ad writer (content_read id, source) =
      decode_with source writer (new_stream_decrypter key ad id)
  decode_after key ad writer (too_large, source) = (err frame_too_large, writer)
  decode_after key ad writer (_, source) = (err read_failed, writer)

  unfoldable pub decode_stream :
      Bytes → Bytes → Source → Writer → Result CryptoErr (Unit {0}) × Writer
  unfolding next_frame decode_first
  decode_stream key ad source writer = decode_after key ad writer (read_frame source)
