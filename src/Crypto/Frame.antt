-- ===== src/Crypto/Frame.antt =====
-- internal/client/usecase/secret/frame.go: bytes with their length in front, on a stream.
pub mod RoundTrip
use yandex_go_final_diploma.Prelude.{
  ℕ, ◌*◌, ◌%◌, ◌^◌, Bool, true, false, Option, none, some, List, [], ◌∷◌, ◌++◌, length, ltb,
  if◌then◌else◌,
}
use yandex_go_final_diploma.Exec.{Exec, Result, ok, err, pure, ◌>>=◌, ◌>>◌}
use yandex_go_final_diploma.Server.Domain.{Bytes}
use yandex_go_final_diploma.Crypto.Bytes.{put_uint32, uint32}
use yandex_go_final_diploma.Crypto.Aead.{CryptoErr, write_failed, split_at}

abbrev pub max_frame_size : ℕ
max_frame_size = 16 * 1024 * 1024

-- An `io.Writer`: what was written, and for each `Write` to come whether it fails.
pub record Writer : Type 0 where
  pub written : Bytes
  pub faults : List Bool

abbrev pub write_as : Bytes → Bytes → List Bool → Result CryptoErr (Unit {0}) × Writer
write_as content written [] = (ok tt, record { written = written ++ content; faults = [] })
write_as content written (true ∷ faults) =
    (err write_failed, record { written = written; faults = faults })
write_as content written (false ∷ faults) =
    (ok tt, record { written = written ++ content; faults = faults })

unfoldable pub write : Bytes → Exec Writer CryptoErr (Unit {0})
write content w = write_as content w.written w.faults

unfoldable pub write_frame : Bytes → Exec Writer CryptoErr (Unit {0})
unfolding write put_uint32
write_frame content = write (put_uint32 (length content % 2 ^ 32)) >> write content

-- An `io.Reader`: what is still to come, and whether the end of it is a failure instead of `io.EOF`.
pub record Source : Type 0 where
  pub bytes : Bytes
  pub fails : Bool

-- What `readFrame` returns: the data, an error that is `io.EOF`, or another one.
pub data Frame : Type 0 where
  content_read : Bytes → Frame
  at_end too_large broken : Frame

-- The end of the stream within the bytes that `io.ReadFull` wants: `io.EOF` only before the first.
abbrev pub cut_short : Bool → Bytes → Frame
cut_short true rest = broken
cut_short false [] = at_end
cut_short false (_ ∷ _) = broken

abbrev pub read_data : Source → Bytes → Option (Bytes × Bytes) → Frame × Source
read_data s rest none = (cut_short s.fails rest, record s { bytes = [] })
read_data s rest (some (content, behind)) = (content_read content, record s { bytes = behind })

-- The data behind a length that was read.
unfoldable pub read_sized : Source → ℕ → Bytes → Frame × Source
unfolding split_at
read_sized s size rest =
    if ltb max_frame_size size
    then (too_large, record s { bytes = rest })
    else read_data s rest (split_at size rest)

abbrev pub read_length : Source → Bytes → Frame × Source
read_length s (a ∷ b ∷ c ∷ d ∷ rest) = read_sized s (uint32 a b c d) rest
read_length s rest = (cut_short s.fails rest, record s { bytes = [] })

unfoldable pub read_frame : Source → Frame × Source
unfolding read_sized
read_frame s = read_length s s.bytes
