-- ===== src/Client/Local/Tables.antt =====
-- Searching a table that another statement has changed.
use yandex_go_final_diploma.Prelude.{
  String, Bool, true, false, some, List, [], ◌∷◌, ◌++◌, ◌≡◌, refl, inl, inr, str_eq, eq_iff, find,
  select, update, Bool-cases, arith,
}

-- Two texts that are equal to the same text, or to none, by the test.
pub str_eq-same : (a b : String) → str_eq a b ≡ true → a ≡ b
str_eq-same a b h = (eq_iff a b).0 h

pub str_eq_refl : (a : String) → str_eq a a ≡ true
str_eq_refl a = (eq_iff a a).1 refl

module _ {A : Type 0} (p : A → Bool) where
  pub find-append_other : (xs : List A) (x : A) → p x ≡ false → find p (xs ++ x ∷ []) ≡ find p xs
  unfolding find
  find-append_other [] x h = rw h
  find-append_other (y ∷ xs) x h = rw (find-append_other xs x h)

  -- The rows that change are not looked for, neither before nor after.
  pub find-update_other :
      (q : A → Bool) (f : A → A)
      → ((a : A) → q a ≡ true → (p a ≡ false) × (p (f a) ≡ false))
      → (xs : List A) → find p (update q f xs) ≡ find p xs
  unfolding find update
  find-update_other q f other [] = refl
  find-update_other q f other (x ∷ xs) = elim (Bool-cases (q x)) [
    | inl h ↦ rw (h, (other x h).0, (other x h).1, find-update_other q f other xs)
    | inr h ↦ rw (h, find-update_other q f other xs)
  ]

  -- The first row looked for is the changed one, where the change does not hide it.
  pub find-update_same :
      (f : A → A)
      → ((a : A) → p a ≡ true → p (f a) ≡ true)
      → (xs : List A) (a : A) → find p xs ≡ some a
      → find p (update p f xs) ≡ some (f a)
  unfolding find update
  find-update_same f keeps [] a h = ground (arith, h)
  find-update_same f keeps (x ∷ xs) a h = elim (Bool-cases (p x)) [
    | inl e ↦ let same : x ≡ a = ground (arith, e, h) in rw (e, keeps x e, same) refl
    | inr e ↦ rw (e, e, find-update_same f keeps xs a (ground (arith, e, h)))
  ]

  pub find-select_other :
      (q : A → Bool)
      → ((a : A) → p a ≡ true → q a ≡ true)
      → (xs : List A) → find p (select q xs) ≡ find p xs
  unfolding find select
  find-select_other q kept [] = refl
  find-select_other q kept (x ∷ xs) = elim (Bool-cases (q x)) [
    | inl e ↦ rw (e, find-select_other q kept xs)
    | inr e ↦ elim (Bool-cases (p x)) [
      | inl h ↦ ground (arith, e, kept x h)
      | inr h ↦ rw (e, h, find-select_other q kept xs)
    ]
  ]
