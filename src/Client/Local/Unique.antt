-- ===== src/Client/Local/Unique.antt =====
-- Tables in which no two rows have one key.
use yandex_go_final_diploma.Prelude.{
  Bool, false, List, [], ◌∷◌, ◌≡◌, inl, inr, select, All, Bool-cases,
}

-- `same` compares the keys of a later row and an earlier one.
abbrev pub Unique : {A : Type 0} → (A → A → Bool) → List A → Type 0
Unique same [] = Unit
Unique same (x ∷ xs) = All (λ y. same y x ≡ false) xs × Unique same xs

module _ {A : Type 0} where
  pub All-select : (P : A → Type 0) (p : A → Bool) (xs : List A) → All P xs → All P (select p xs)
  unfolding select
  All-select P p [] h = tt
  All-select P p (x ∷ xs) h = elim (Bool-cases (p x)) [
    | inl e ↦ rw e (h.0, All-select P p xs h.1)
    | inr e ↦ rw e (All-select P p xs h.1)
  ]

  pub All-map : {P Q : A → Type 0} → ((a : A) → P a → Q a) → (xs : List A) → All P xs → All Q xs
  All-map f [] h = tt
  All-map f (x ∷ xs) h = (f x h.0, All-map f xs h.1)
