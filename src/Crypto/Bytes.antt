-- ===== src/Crypto/Bytes.antt =====
-- encoding/binary as the streams use it: fixed-width numbers, the most significant byte first.
use Prim.Native.Nat.{◌/◌}
use yandex_go_final_diploma.Prelude.{
  ℕ, ◌+◌, ◌*◌, ◌%◌, ◌^◌, ◌<◌, [], ◌∷◌, ◌++◌, ◌≡◌, sym, ap, ◌∙◌, arith,
}
use yandex_go_final_diploma.Server.Domain.{Bytes}

-- `binary.BigEndian.PutUint32`
unfoldable pub put_uint32 : ℕ → Bytes
put_uint32 v = (v / 2 ^ 24) % 256 ∷ (v / 2 ^ 16) % 256 ∷ (v / 2 ^ 8) % 256 ∷ v % 256 ∷ []

-- `binary.BigEndian.Uint32` on four bytes
abbrev pub uint32 : ℕ → ℕ → ℕ → ℕ → ℕ
uint32 a b c d = a * 2 ^ 24 + b * 2 ^ 16 + c * 2 ^ 8 + d

pub uint32_back :
    (v : ℕ)
    → v < 2 ^ 32
    → uint32 ((v / 2 ^ 24) % 256) ((v / 2 ^ 16) % 256) ((v / 2 ^ 8) % 256) (v % 256) ≡ v
uint32_back v h = omega (arith, h)

-- `binary.BigEndian.PutUint64`
unfoldable pub put_uint64 : ℕ → Bytes
unfolding put_uint32
put_uint64 v = put_uint32 (v / 2 ^ 32) ++ put_uint32 v

uint64 : Bytes → ℕ
uint64 (a ∷ b ∷ c ∷ d ∷ e ∷ f ∷ g ∷ h ∷ rest) = uint32 a b c d * 2 ^ 32 + uint32 e f g h
uint64 _ = 0

uint64_back : (v : ℕ) → v < 2 ^ 64 → uint64 (put_uint64 v) ≡ v
unfolding put_uint64 put_uint32 uint64
uint64_back v h = omega (arith, h, uint32_back (v / 2 ^ 32) (omega (arith, h)), uint32_low v)
  where
    uint32_low :
        (v : ℕ)
        → uint32 ((v / 2 ^ 24) % 256) ((v / 2 ^ 16) % 256) ((v / 2 ^ 8) % 256) (v % 256)
          ≡ v % 2 ^ 32
    uint32_low v = omega arith

pub put_uint64-injective : (a b : ℕ) → a < 2 ^ 64 → b < 2 ^ 64 → put_uint64 a ≡ put_uint64 b → a ≡ b
put_uint64-injective a b ha hb h = sym (uint64_back a ha) ∙ ap uint64 h ∙ uint64_back b hb
