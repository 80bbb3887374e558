-- ===== src/Server/Examples/Json.antt =====
-- A stand-in for a `jsonb` column.
use yandex_go_final_diploma.Prelude.{
  ℕ, Bool, not, Option, none, some, [], ◌∷◌, ◌==◌, ◌≡◌, refl, inl, inr, arith, select,
  if◌then◌else◌, Bool-cases,
}
use yandex_go_final_diploma.Server.Domain.{Bytes}

-- A text is taken for JSON if it starts with a brace, and its blanks are left out.
abbrev printed : ℕ → Bool
printed b = not (b == 32)

abbrev pub blank_free : Bytes → Bytes
blank_free text = select printed text

abbrev pub braced : Bytes → Option Bytes
braced [] = none
braced (b ∷ rest) = if b == 123 then some (blank_free (b ∷ rest)) else none

blank_free-twice : (text : Bytes) → blank_free (blank_free text) ≡ blank_free text
unfolding select
blank_free-twice [] = refl
blank_free-twice (b ∷ rest) = elim (Bool-cases (printed b)) [
  | inl e ↦ rw (e, e, blank_free-twice rest) refl
  | inr e ↦ rw (e, blank_free-twice rest) refl
]

pub braced-blank_free :
    (text stored : Bytes) → braced text ≡ some stored → blank_free stored ≡ blank_free text
braced-blank_free [] stored e = ground (arith, e)
braced-blank_free (b ∷ rest) stored e = elim (Bool-cases (b == 123)) [
  | inl f ↦
      let same : blank_free (b ∷ rest) ≡ stored = ground (arith, f, e) in
      rw (← same) (blank_free-twice (b ∷ rest))
  | inr f ↦ ground (arith, f, e)
]
