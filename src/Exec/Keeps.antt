-- ===== src/Exec/Keeps.antt =====
-- A relation between the state before code and the state after it, kept by code put together of parts
-- that keep it.
use yandex_go_final_diploma.Prelude.{Bool, true, false, if◌then◌else◌, ◌≡◌, refl}
use yandex_go_final_diploma.Exec.{Exec, Result, ok, err, pure, raise, continue, ◌>>=◌}

pub record Keeps {S E A : Type 0} (R : S → S → Type 0) (m : Exec S E A) : Type 0 where
  pub at : (s : S) → R s (m s).1

pub record Preorder {S : Type 0} (R : S → S → Type 0) : Type 0 where
  pub stays : (s : S) → R s s
  pub chain : (a b c : S) → R a b → R b c → R a c

module _ {S E A : Type 0} {R : S → S → Type 0} (p : Preorder R) where
  pub pure-Keeps : (a : A) → Keeps {E = E} R (pure a)
  pure-Keeps a = record { at = p.stays }

  pub raise-Keeps : (e : E) → Keeps {A = A} R (raise e)
  raise-Keeps e = record { at = p.stays }

module _ {S E A B : Type 0} {R : S → S → Type 0} (p : Preorder R) where
  continue-at :
      (s s' : S) (r : Result E A) (k : A → Exec S E B)
      → R s s'
      → ((a : A) → r ≡ ok a → R s' (k a s').1)
      → R s (continue r k s').1
  continue-at s s' (ok a) k h next = p.chain s s' _ h (next a refl)
  continue-at s s' (err e) k h next = h

  -- What is behind the bind may rest on the value that the code in front of it returned.
  pub bind-at :
      (m : Exec S E A) (k : A → Exec S E B) (s : S)
      → R s (m s).1
      → ((a : A) → (m s).0 ≡ ok a → R (m s).1 (k a (m s).1).1)
      → R s ((m >>= k) s).1
  bind-at m k s h next = continue-at s (m s).1 (m s).0 k h next

  pub bind-Keeps :
      (m : Exec S E A) (k : A → Exec S E B)
      → Keeps R m
      → ((a : A) → Keeps R (k a))
      → Keeps R (m >>= k)
  bind-Keeps m k h next = record { at = λ s. bind-at m k s (h.at s) (λ a _. (next a).at (m s).1) }

pub if-Keeps :
    {S E A : Type 0} {R : S → S → Type 0} (b : Bool) (m n : Exec S E A)
    → Keeps R m
    → Keeps R n
    → Keeps R (if b then m else n)
if-Keeps true m n hm hn = hm
if-Keeps false m n hm hn = hn
