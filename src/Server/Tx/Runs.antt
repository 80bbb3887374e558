-- ===== src/Server/Tx/Runs.antt =====
-- Both readings of a piece of repository code at once, with a rule for each way to build it: under
-- any environment it comes to its query or to a fault, and under a calm one it runs its query.
use yandex_go_final_diploma.Prelude.{
  Bool, true, false, ◌≡◌, refl, subst, fun_ext, ◌⊎◌, inl, inr, if◌then◌else◌,
}
use yandex_go_final_diploma.Exec.{Exec, Result, ok, err, pure, raise, refuse_if, ◌>>=◌, ◌>>◌}
use yandex_go_final_diploma.Server.Errors.{Err, db, no_rows, is_fault}
use yandex_go_final_diploma.Server.Store.{Db, World, Action, Query, atomic}
use yandex_go_final_diploma.Server.Tx.{Ctx, Call, pool, tx, querier, do_tx}
use yandex_go_final_diploma.Server.Tx.Refines.{
  Performed, Performs, Refined, Refines, Refines-Performs, pure-Performs, raise-Performs,
  bind-Performs, querier-Refines, do_tx-Refines,
}
use yandex_go_final_diploma.Server.Tx.Calm.{
  Calm, pure-Calm, raise-Calm, bind-Calm, querier-Calm, do_tx-Calm,
}

module _ {A : Type 0} where
  -- In a transaction, or where a fault may leave a part of the work done.
  pub record Runs (m : Action A) (q : Query A) : Type 0 where
    pub performs : Performs m q
    pub calm : Calm m q

  -- As a whole.
  pub record Serves (m : Action A) (q : Query A) : Type 0 where
    pub refines : Refines m q
    pub calm : Calm m q

  pub Serves-Runs : {m : Action A} {q : Query A} → Serves m q → Runs m q
  Serves-Runs h = record { performs = Refines-Performs h.refines; calm = h.calm }

  pub Runs-pure : (a : A) → Runs (pure a) (pure a)
  Runs-pure a = record { performs = pure-Performs a; calm = pure-Calm a }

  pub Runs-raise : (e : Err) → Runs (raise e) (raise e)
  Runs-raise e = record { performs = raise-Performs e; calm = raise-Calm e }

  pub Runs-if :
      (b : Bool) (m n : Action A) (p q : Query A)
      → Runs m p
      → Runs n q
      → Runs (if b then m else n) (if b then p else q)
  Runs-if true m n p q h k = h
  Runs-if false m n p q h k = k

  pub Serves-querier : (ctx : Ctx) (c : Call) (q : Query A) → Serves (querier ctx c q) (atomic q)
  Serves-querier ctx c q = record { refines = querier-Refines ctx c q; calm = querier-Calm ctx c q }

  pub Runs-querier : (ctx : Ctx) (c : Call) (q : Query A) → Runs (querier ctx c q) (atomic q)
  Runs-querier ctx c q = Serves-Runs (Serves-querier ctx c q)

  pub Serves-do_tx :
      (fn : Ctx → Action A) (q : Query A) → Runs (fn tx) q → Serves (do_tx pool fn) (atomic q)
  Serves-do_tx fn q h = record {
    refines = do_tx-Refines fn q h.performs;
    calm = do_tx-Calm fn q h.calm;
  }

module _ {A B : Type 0} where
  pub Runs-bind :
      (m : Action A) (q : Query A) (f : A → Action B) (g : A → Query B)
      → Runs m q
      → ((a : A) → Runs (f a) (g a))
      → Runs (m >>= f) (q >>= g)
  Runs-bind m q f g h k = record {
    performs = bind-Performs m q f g h.performs (λ a. (k a).performs);
    calm = bind-Calm m q f g h.calm (λ a. (k a).calm);
  }

-- `wrapNotFound`: that a statement found no row is reported as `e`.
unfoldable pub swap_no_rows : {A : Type 0} → Err → Result Err A → Result Err A
swap_no_rows e (ok a) = ok a
swap_no_rows e (err (db no_rows)) = err e
swap_no_rows e (err x) = err x

unfoldable pub hide_no_rows : {S A : Type 0} → Err → Exec S Err A → Exec S Err A
unfolding swap_no_rows
hide_no_rows e m s = let (r, s') = m s in (swap_no_rows e r, s')

module _ {A : Type 0} where
  pub swap_no_rows-fault : (e x : Err) → is_fault x ≡ true → swap_no_rows {A = A} e (err x) ≡ err x
  unfolding swap_no_rows is_fault
  swap_no_rows-fault e (db no_rows) f = cc
  swap_no_rows-fault e x f = refl

  hide_no_rows-Performs :
      (e : Err) (m : Action A) (q : Query A)
      → Performs m q
      → Performs (hide_no_rows e m) (hide_no_rows e q)
  unfolding hide_no_rows
  hide_no_rows-Performs e m q h = record { at = λ w. go w (h.at w) }
    where
      go :
          (w : World)
          → Performed (q w.store) (m w)
          → Performed (hide_no_rows e q w.store) (hide_no_rows e m w)
      go w (Performed.faulted x f p) = Performed.faulted x f (rw p (swap_no_rows-fault e x f))
      go w (Performed.ran p k) = Performed.ran (rw p) k

  pub Runs-hide_no_rows :
      (e : Err) (m : Action A) (q : Query A) → Runs m q → Runs (hide_no_rows e m) (hide_no_rows e q)
  Runs-hide_no_rows e m q h = record {
    performs = hide_no_rows-Performs e m q h.performs;
    calm = record { at = λ d. unfold hide_no_rows in rw h.calm.at };
  }

pub Runs-refuse_if :
    (test : Bool) (e : Err) → Runs (refuse_if {S = World} test e) (refuse_if {S = Db} test e)
unfolding refuse_if
Runs-refuse_if true e = Runs-raise e
Runs-refuse_if false e = Runs-pure tt

-- `if test { return err }` in front of what serves a query.
module _ {A : Type 0} where
  pub Serves-guard :
      (b : Bool) (e : Err) (m : Action A) (q : Query A)
      → Serves m q
      → Serves (refuse_if b e >> m) (refuse_if b e >> q)
  unfolding refuse_if
  Serves-guard true e m q h = record {
    refines = record { at = λ w. Refined.ran refl refl };
    calm = record { at = λ d. refl };
  }
  Serves-guard false e m q h = record {
    refines = record { at = λ w. h.refines.at w };
    calm = record { at = λ d. h.calm.at d };
  }

  pub Serves-as :
      {m : Action A} {plain q : Query A} → Serves m plain → ((d : Db) → plain d ≡ q d) → Serves m q
  Serves-as {m} s h = subst (Serves m) (fun_ext h) s

  -- What serves a query leaves the database as it was where it returns a fault, and otherwise returns
  -- what the query returns and leaves the database as the query leaves it.
  pub Serves-cases :
      {m : Action A} {q : Query A}
      → Serves m q
      → (w : World)
      → ((e : Err) × (is_fault e ≡ true) × ((m w).0 ≡ err e) × ((m w).1.store ≡ w.store))
        ⊎ (((m w).0 ≡ (q w.store).0) × ((m w).1.store ≡ (q w.store).1))
  Serves-cases {m} {q} s w = go (s.refines.at w)
    where
      go :
          Refined w.store (q w.store) (m w)
          → ((e : Err) × (is_fault e ≡ true) × ((m w).0 ≡ err e) × ((m w).1.store ≡ w.store))
            ⊎ (((m w).0 ≡ (q w.store).0) × ((m w).1.store ≡ (q w.store).1))
      go (Refined.faulted e f p k) = inl (e, f, p, k)
      go (Refined.ran p k) = inr (p, k)
