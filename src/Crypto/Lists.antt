-- ===== src/Crypto/Lists.antt =====
-- Strings of bytes put behind one another.
use yandex_go_final_diploma.Prelude.{
  ℕ, zero, suc, ◌+◌, some, [], ◌∷◌, ◌++◌, ◌≡◌, refl, ap, length, arith,
}
use yandex_go_final_diploma.Server.Domain.{Bytes}
use yandex_go_final_diploma.Crypto.Aead.{split_at}

pub append_assoc : (xs ys zs : Bytes) → (xs ++ ys) ++ zs ≡ xs ++ (ys ++ zs)
append_assoc [] ys zs = refl
append_assoc (x ∷ xs) ys zs = ap (λ r. x ∷ r) (append_assoc xs ys zs)

pub append_nil : (xs : Bytes) → xs ++ [] ≡ xs
append_nil [] = refl
append_nil (b ∷ xs) = ap (λ r. b ∷ r) (append_nil xs)

pub length-append : (xs ys : Bytes) → length (xs ++ ys) ≡ length xs + length ys
length-append [] ys = omega arith
length-append (b ∷ xs) ys = omega (arith, length-append xs ys)

pub split_at-append :
    (n : ℕ) (xs ys : Bytes) → length xs ≡ n → split_at n (xs ++ ys) ≡ some (xs, ys)
unfolding split_at
split_at-append zero [] ys h = refl
split_at-append zero (x ∷ xs) ys h = ground (arith, h)
split_at-append (suc n) [] ys h = ground (arith, h)
split_at-append (suc n) (x ∷ xs) ys h = rw (split_at-append n xs ys (omega (arith, h)))

-- Strings that agree and have equally long heads agree in the heads and in the tails.
pub heads :
    (xs ys us vs : Bytes) → length xs ≡ length ys → xs ++ us ≡ ys ++ vs → (xs ≡ ys) × (us ≡ vs)
heads [] [] us vs l h = (refl, h)
heads [] (y ∷ ys) us vs l h = ground (arith, l)
heads (x ∷ xs) [] us vs l h = ground (arith, l)
heads (x ∷ xs) (y ∷ ys) us vs l h =
    let same : x ≡ y = ground (arith, h) in
    let rest : xs ++ us ≡ ys ++ vs = ground (arith, h) in
    let (tails, others) = heads xs ys us vs (omega (arith, l)) rest in (cc, others)
