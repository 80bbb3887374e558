-- ===== src/Server/Store/Rows.antt =====
-- Which rows a query hands out: those found, selected, ordered and mapped are still there.
use yandex_go_final_diploma.Prelude.{
  ℕ, Bool, true, ◌≡◌, refl, ap, some, List, [], ◌∷◌, map, arith, find, select, Bool-cases, inl, inr,
  leb,
}
use mathlib.Core.List.{Memᴰ}
use yandex_go_final_diploma.Server.Store.Queries.{insert_by, order_by}

module _ {A : Type 0} where
  pub Memᴰ-find : (p : A → Bool) (a : A) (xs : List A) → find p xs ≡ some a → Memᴰ a xs
  unfolding find
  Memᴰ-find p a [] h = cc
  Memᴰ-find p a (x ∷ xs) h = elim (Bool-cases (p x)) [
    | inl e ↦ Memᴰ.head (ground (arith, h, e))
    | inr e ↦ Memᴰ.tail (Memᴰ-find p a xs (ground (arith, h, e)))
  ]

  pub Memᴰ-select :
      (p : A → Bool) (a : A) (xs : List A) → p a ≡ true → Memᴰ a xs → Memᴰ a (select p xs)
  unfolding select
  Memᴰ-select p a [] h m = elim m [ ]
  Memᴰ-select p a (x ∷ xs) h (Memᴰ.head e) = rw (← e, h) (Memᴰ.head refl)
  Memᴰ-select p a (x ∷ xs) h (Memᴰ.tail m) = elim (Bool-cases (p x)) [
    | inl e ↦ rw e (Memᴰ.tail (Memᴰ-select p a xs h m))
    | inr e ↦ rw e (Memᴰ-select p a xs h m)
  ]

  -- The row goes behind the next one.
  past_next :
      {a x y : A} {ys zs : List A}
      → (Memᴰ a (x ∷ ys) → Memᴰ a zs)
      → Memᴰ a (x ∷ y ∷ ys)
      → Memᴰ a (y ∷ zs)
  past_next keep (Memᴰ.head h) = Memᴰ.tail (keep (Memᴰ.head h))
  past_next keep (Memᴰ.tail (Memᴰ.head h)) = Memᴰ.head h
  past_next keep (Memᴰ.tail (Memᴰ.tail h)) = Memᴰ.tail (keep (Memᴰ.tail h))

  Memᴰ-insert_by :
      (key : A → ℕ) (a x : A) (xs : List A) → Memᴰ a (x ∷ xs) → Memᴰ a (insert_by key x xs)
  unfolding insert_by
  Memᴰ-insert_by key a x [] m = m
  Memᴰ-insert_by key a x (y ∷ ys) m = elim (Bool-cases (leb (key x) (key y))) [
    | inl e ↦ rw e m
    | inr e ↦ rw e (past_next (Memᴰ-insert_by key a x ys) m)
  ]

  pub Memᴰ-order_by : (key : A → ℕ) (a : A) (xs : List A) → Memᴰ a xs → Memᴰ a (order_by key xs)
  unfolding order_by
  Memᴰ-order_by key a [] m = elim m [ ]
  Memᴰ-order_by key a (x ∷ xs) (Memᴰ.head e) = Memᴰ-insert_by key a x _ (Memᴰ.head e)
  Memᴰ-order_by key a (x ∷ xs) (Memᴰ.tail m) =
      Memᴰ-insert_by key a x _ (Memᴰ.tail (Memᴰ-order_by key a xs m))

  pub Memᴰ-map : {B : Type 0} (f : A → B) (a : A) (xs : List A) → Memᴰ a xs → Memᴰ (f a) (map f xs)
  Memᴰ-map f a [] m = elim m [ ]
  Memᴰ-map f a (x ∷ xs) (Memᴰ.head e) = Memᴰ.head (ap f e)
  Memᴰ-map f a (x ∷ xs) (Memᴰ.tail m) = Memᴰ.tail (Memᴰ-map f a xs m)
