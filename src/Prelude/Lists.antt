-- ===== src/Prelude/Lists.antt =====
-- Lists searched, filtered and updated by Boolean tests, as the rows of a table are.
use Prim.Native.Nat.{ℕ, suc}
use mathlib.Core.Path.{◌≡◌}
use mathlib.Core.Bool.{Bool, false, ◌||◌}
use native.Mathlib.Omega.{arith}
use mathlib.Core.List.{List, [], ◌∷◌}
use mathlib.Core.Option.{Option, none, some}
use yandex_go_final_diploma.Prelude.Tests.{if◌then◌else◌}

module _ {ℓ} {A : Type ℓ} where
  abbrev pub length : List A → ℕ
  length [] = 0
  length (x ∷ xs) = suc (length xs)

  -- The first row that passes the test.
  unfoldable pub find : (A → Bool) → List A → Option A
  find p [] = none
  find p (x ∷ xs) = if p x then some x else find p xs

  unfoldable pub any : (A → Bool) → List A → Bool
  any p [] = false
  any p (x ∷ xs) = p x || any p xs

  -- The rows that pass the test, in order.
  unfoldable pub select : (A → Bool) → List A → List A
  select p [] = []
  select p (x ∷ xs) = let rest = select p xs in if p x then x ∷ rest else rest

  -- Each row that passes the test is replaced.
  unfoldable pub update : (A → Bool) → (A → A) → List A → List A
  update p f [] = []
  update p f (x ∷ xs) = (if p x then f x else x) ∷ update p f xs

  -- A predicate that holds of each element.
  abbrev pub All {κ} : (A → Type κ) → List A → Type κ
  All P [] = Unit
  All P (x ∷ xs) = P x × All P xs

module _ {A : Type 0} (p q : A → Bool) (f : A → A) (same : (a : A) → p (f a) ≡ p a) where
  -- An update leaves what a search finds, but for the update.
  pub find-updated :
      (xs : List A) (a : A)
      → find p xs ≡ some a
      → find p (update q f xs) ≡ some (if q a then f a else a)
  unfolding find update
  find-updated [] a h = cc
  find-updated (b ∷ xs) a h = ground (arith, h, same b, find-updated xs a)
