-- ===== src/Crypto/Frame/RoundTrip.antt =====
-- A frame that was written is read back.
use yandex_go_final_diploma.Prelude.{
  ℕ, ◌%◌, ◌^◌, ◌≤◌, ◌<◌, Bool, false, [], ◌++◌, ◌≡◌, refl, ap, ◌∙◌, length, ltb, arith,
}
use yandex_go_final_diploma.Exec.{ok}
use yandex_go_final_diploma.Server.Domain.{Bytes}
use yandex_go_final_diploma.Crypto.Bytes.{put_uint32, uint32_back}
use yandex_go_final_diploma.Crypto.Lists.{append_assoc, split_at-append}
use yandex_go_final_diploma.Crypto.Frame.{
  content_read, write, write_frame, read_frame, read_sized, max_frame_size,
}

-- The bytes of a frame.
abbrev pub frame : Bytes → Bytes
frame content = put_uint32 (length content % 2 ^ 32) ++ content

small : (n : ℕ) → n ≤ 16777216 → n % 2 ^ 32 ≡ n
small n h = omega (arith, h)

fits : (n : ℕ) → n ≤ 16777216 → ltb max_frame_size n ≡ false
fits n h = ground (arith, h)

-- A writer that does not fail gets the length and the content.
pub write_frame-appends :
    (content written : Bytes)
    → write_frame content (record { written = written; faults = [] })
      ≡ (ok tt, record { written = written ++ frame content; faults = [] })
unfolding write_frame write
write_frame-appends content written =
    ap (λ bs. (ok tt, record { written = bs; faults = [] }))
      (append_assoc written (put_uint32 (length content % 2 ^ 32)) content)

read_sized-append :
    (content rest all : Bytes) (fails : Bool)
    → length content ≤ 16777216
    → read_sized (record { bytes = all; fails = fails }) (length content) (content ++ rest)
      ≡ (content_read content, record { bytes = rest; fails = fails })
unfolding read_sized
read_sized-append content rest all fails le =
    rw (fits (length content) le, split_at-append (length content) content rest refl)

below : (n : ℕ) → n % 2 ^ 32 < 2 ^ 32
below n = omega arith

pub read_frame-write :
    (content rest : Bytes) (fails : Bool)
    → length content ≤ 16777216
    → read_frame (record { bytes = frame content ++ rest; fails = fails })
      ≡ (content_read content, record { bytes = rest; fails = fails })
unfolding read_frame put_uint32
read_frame-write content rest fails le =
    let all : Bytes = frame content ++ rest in
    ap (λ n. read_sized (record { bytes = all; fails = fails }) n (content ++ rest))
      (uint32_back (length content % 2 ^ 32) (below (length content)) ∙ small (length content) le)
    ∙ read_sized-append content rest all fails le
