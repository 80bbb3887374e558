-- ===== src/Crypto/Examples/Prefixed.antt =====
-- A cipher that hides nothing: the nonce and the data are put in front of the text, each behind its length.
use yandex_go_final_diploma.Prelude.{
  ℕ, suc, Option, none, some, [], ◌∷◌, ◌++◌, ◌≡◌, sym, ap, ◌∙◌, length, ◌==◌, if◌then◌else◌, arith,
  Bool-cases, inl, inr,
}
use yandex_go_final_diploma.Server.Domain.{Bytes}
use yandex_go_final_diploma.Crypto.Lists.{heads, append_assoc}
use yandex_go_final_diploma.Crypto.Aead.{Aead, Authentic}

-- What is behind a beginning.
abbrev strip : Bytes → Bytes → Option Bytes
strip [] c = some c
strip (a ∷ as') [] = none
strip (a ∷ as') (c ∷ cs) = if a == c then strip as' cs else none

abbrev marks : Bytes → Bytes → Bytes
marks n ad = (length n ∷ n) ++ (length ad ∷ ad)

abbrev pub prefixed : Aead
prefixed = record {
  seal = λ k n p ad. marks n ad ++ p;
  open_sealed = λ k n c ad. strip (marks n ad) c;
}

strip-some : (a c q : Bytes) → strip a c ≡ some q → c ≡ a ++ q
strip-some [] c q h = ground (arith, h)
strip-some (a ∷ as') [] q h = ground (arith, h)
strip-some (a ∷ as') (c ∷ cs) q h = elim (Bool-cases (a == c)) [
  | inr other ↦ ground (arith, other, h)
  | inl same ↦
      let rest : strip as' cs ≡ some q = ground (arith, same, h) in
      let first : c ≡ a = ground (arith, same) in rw (first, strip-some as' cs q rest)
]

marks-injective :
    (n ad p n' ad' q : Bytes) → marks n ad ++ p ≡ marks n' ad' ++ q → (n ≡ n') × (ad ≡ ad')
marks-injective n ad p n' ad' q h =
    let whole : length n ∷ (n ++ (length ad ∷ (ad ++ p)))
        ≡ length n' ∷ (n' ++ (length ad' ∷ (ad' ++ q))) =
      ap (λ t. length n ∷ t) (sym (append_assoc n (length ad ∷ ad) p))
      ∙ h
      ∙ ap (λ t. length n' ∷ t) (append_assoc n' (length ad' ∷ ad') q) in
    let size : length n ≡ length n' = ground (arith, whole) in
    let (ns, rest) = heads (length n ∷ n) (length n' ∷ n') _ _ (ap suc size) whole in
    let size' : length ad ≡ length ad' = ground (arith, rest) in
    let (ads, _) = heads (length ad ∷ ad) (length ad' ∷ ad') _ _ (ap suc size') rest in
    (tail ns, tail ads)
  where
    tail : {a b : ℕ} {xs ys : Bytes} → a ∷ xs ≡ b ∷ ys → xs ≡ ys
    tail e = ap (λ l. elim l [ [] ↦ [] | _ ∷ t ↦ t ]) e

pub prefixed-Authentic : Authentic prefixed
prefixed-Authentic = record {
  authentic = λ k n p ad n' ad' q h.
      marks-injective n ad p n' ad' q (strip-some (marks n' ad') (marks n ad ++ p) q h);
}
