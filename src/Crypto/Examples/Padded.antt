-- ===== src/Crypto/Examples/Padded.antt =====
-- A cipher that hides nothing: sixteen zeros are put in front of the text.
use yandex_go_final_diploma.Prelude.{
  ℕ, zero, suc, Option, none, some, [], ◌∷◌, ◌++◌, ◌≡◌, refl, sym, ap, ◌∙◌, length, arith,
}
use yandex_go_final_diploma.Server.Domain.{Bytes}
use yandex_go_final_diploma.Crypto.Aead.{Aead, AeadLaws, Entropy, split_at}

abbrev pub zeros : ℕ → Bytes
zeros zero = []
zeros (suc n) = 0 ∷ zeros n

abbrev second : Option (Bytes × Bytes) → Option Bytes
second none = none
second (some (_, q)) = some q

unfoldable pub padded : Aead
unfolding split_at
padded = record {
  seal = λ k n p ad. zeros 16 ++ p;
  open_sealed = λ k n c ad. second (split_at 16 c);
}

pub padded_laws : AeadLaws padded
unfolding padded split_at
padded_laws = record { opens = λ k n p ad. refl; tag = λ k n p ad. omega arith }

-- A source of randomness that gives zeros.
abbrev pub no_entropy : Entropy
no_entropy n = some (zeros n)

length-zeros : (n : ℕ) → length (zeros n) ≡ n
length-zeros zero = refl
length-zeros (suc n) = ap suc (length-zeros n)

pub no_entropy_fills : (n : ℕ) (b : Bytes) → no_entropy n ≡ some b → length b ≡ n
no_entropy_fills n b h = ap (λ o. elim o [ none ↦ 0 | some c ↦ length c ]) h' ∙ length-zeros n
  where
    h' : some b ≡ no_entropy n
    h' = sym h
