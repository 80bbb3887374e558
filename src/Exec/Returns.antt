-- ===== src/Exec/Returns.antt =====
-- What is known of the parts where code put together of them has returned a value.
use yandex_go_final_diploma.Prelude.{◌≡◌, refl, sym, subst, ap, arith, ◌⊎◌, inl, inr}
use yandex_go_final_diploma.Exec.{Exec, Result, ok, err, continue, ◌>>=◌}

pub ok-injective : {E A : Type 0} {a b : A} → ◌≡◌ {A = Result E A} (ok a) (ok b) → a ≡ b
ok-injective {a = a} h = ap (λ r. elim r [ ok x ↦ x | err _ ↦ a ]) h

pub Result-cases :
    {E A : Type 0} (r : Result E A) → ((e : E) × (r ≡ err e)) ⊎ ((a : A) × (r ≡ ok a))
Result-cases (err e) = inl (e, refl)
Result-cases (ok a) = inr (a, refl)

module _ {S E A B : Type 0} where
  -- Both parts returned, one after the other.
  pub record Returned (m : Exec S E A) (k : A → Exec S E B) (s : S) (b : B) : Type 0 where
    pub value : A
    pub first : (m s).0 ≡ ok value
    pub second : (k value (m s).1).0 ≡ ok b
    pub state : ((m >>= k) s).1 ≡ (k value (m s).1).1

  continue-ok :
      (r : Result E A) (s : S) (k : A → Exec S E B) (b : B)
      → (continue r k s).0 ≡ ok b
      → (a : A) × ((r ≡ ok a) × ((k a s).0 ≡ ok b) × ((continue r k s).1 ≡ (k a s).1))
  continue-ok (ok a) s k b h = (a, (refl, h, refl))
  continue-ok (err e) s k b h = ground (arith, h)

  pub bind-ok :
      (m : Exec S E A) (k : A → Exec S E B) (s : S) (b : B)
      → ((m >>= k) s).0 ≡ ok b
      → Returned m k s b
  bind-ok m k s b h =
      let (a, (f, g, st)) = continue-ok (m s).0 (m s).1 k b h in
      record { value = a; first = f; second = g; state = st }

  -- A fact of the state in the end, from what the parts returned.
  pub bind-ends :
      (Q : S → Type 0) (m : Exec S E A) (k : A → Exec S E B) (s : S) (b : B)
      → ((m >>= k) s).0 ≡ ok b
      → ((a : A) → (m s).0 ≡ ok a → (k a (m s).1).0 ≡ ok b → Q (k a (m s).1).1)
      → Q ((m >>= k) s).1
  bind-ends Q m k s b h next =
      let r = bind-ok m k s b h in subst Q (sym r.state) (next r.value r.first r.second)
