-- ===== src/Server/Tx/Refines.antt =====
-- What a piece of repository code comes to: a query on the database as a whole (`Query`), or a fault
-- of the environment. In a transaction a fault leaves whatever was written so far (`Performs`);
-- outside it leaves the database as it was (`Refines`).
use yandex_go_final_diploma.Prelude.{
  ℕ, zero, suc, Bool, true, ◌≡◌, refl, sym, ◌∙◌, Bool-cases, inl, inr,
}
use yandex_go_final_diploma.Exec.{Result, ok, err, pure, raise, continue, ◌>>=◌}
use yandex_go_final_diploma.Server.Errors.{Err, is_fault}
use yandex_go_final_diploma.Server.Store.{
  Db, World, Event, Action, Query, atomic, keep_on_error, draw, under, send, fine, lost_connection,
  lost_reading, aborted, broken, cancelled,
}
use yandex_go_final_diploma.Server.Tx.{
  Ctx, pool, tx, Call, exec, query, attempts, after_delay, retry, with_retry, asked, ask, read_rows,
  retrying, querier, close, finish, body, round, do_tx,
}

module _ {A : Type 0} where
  pub data Performed (spec : Result Err A × Db) (r : Result Err A × World) : Type 0 where
    faulted : (e : Err) → is_fault e ≡ true → r.0 ≡ err e → Performed spec r
    ran : r.0 ≡ spec.0 → r.1.store ≡ spec.1 → Performed spec r

  pub data Refined (d : Db) (spec : Result Err A × Db) (r : Result Err A × World) : Type 0 where
    faulted : (e : Err) → is_fault e ≡ true → r.0 ≡ err e → r.1.store ≡ d → Refined d spec r
    ran : r.0 ≡ spec.0 → r.1.store ≡ spec.1 → Refined d spec r

  pub record Performs (m : Action A) (q : Query A) : Type 0 where
    pub at : (w : World) → Performed (q w.store) (m w)

  pub record Refines (m : Action A) (q : Query A) : Type 0 where
    pub at : (w : World) → Refined w.store (q w.store) (m w)

  pub Refines-Performs : {m : Action A} {q : Query A} → Refines m q → Performs m q
  Refines-Performs {m} {q} h = record { at = λ w. forget (h.at w) }
    where
      forget :
          {d : Db} {s : Result Err A × Db} {r : Result Err A × World}
          → Refined d s r
          → Performed s r
      forget (Refined.faulted e f p k) = Performed.faulted e f p
      forget (Refined.ran p k) = Performed.ran p k

  pub pure-Performs : (a : A) → Performs (pure a) (pure a)
  pure-Performs a = record { at = λ w. Performed.ran refl refl }

  pub raise-Performs : (e : Err) → Performs (raise e) (raise e)
  raise-Performs e = record { at = λ w. Performed.ran refl refl }

  pub raise-Refines : (e : Err) → Refines (raise e) (raise e)
  raise-Refines e = record { at = λ w. Refined.ran refl refl }

  under-Refined :
      (e : Event) (q : Query A) (w : World) → Refined w.store (atomic q w.store) (under e q w)
  unfolding under is_fault
  under-Refined fine q w = Refined.ran refl refl
  under-Refined lost_connection q w = Refined.faulted _ refl refl refl
  under-Refined lost_reading q w = Refined.faulted _ refl refl refl
  under-Refined aborted q w = Refined.faulted _ refl refl refl
  under-Refined broken q w = Refined.faulted _ refl refl refl
  under-Refined cancelled q w = Refined.faulted _ refl refl refl

  pub send-Refines : (q : Query A) → Refines (send q) (atomic q)
  unfolding send
  send-Refines q = record { at = λ w. let (e, w') = draw w in under-Refined e q w' }

module _ {A B : Type 0} where
  continue-Performed :
      (f : A → Action B) (g : A → Query B)
      → ((a : A) → Performs (f a) (g a))
      → (s : Result Err A) (r : Result Err A) (w : World) (d : Db) → r ≡ s
      → w.store ≡ d
      → Performed (continue s g d) (continue r f w)
  continue-Performed f g k (ok a) r w d e p = rw (e, ← p) ((k a).at w)
  continue-Performed f g k (err x) r w d e p = rw (e, ← p) (Performed.ran refl refl)

  pub bind-Performs :
      (m : Action A) (q : Query A) (f : A → Action B) (g : A → Query B)
      → Performs m q
      → ((a : A) → Performs (f a) (g a))
      → Performs (m >>= f) (q >>= g)
  bind-Performs m q f g h k = record { at = λ w. go w (h.at w) }
    where
      go : (w : World) → Performed (q w.store) (m w) → Performed ((q >>= g) w.store) ((m >>= f) w)
      go w (Performed.faulted e x p) = Performed.faulted e x (rw p refl)
      go w (Performed.ran p s) =
          continue-Performed f g k (q w.store).0 (m w).0 (m w).1 (q w.store).1 p s

module _ {A : Type 0} where
  keep_on_error-keeps :
      (d : Db) (s : Result Err A × Db) (e : Err)
      → (keep_on_error d s).0 ≡ err e
      → (keep_on_error d s).1 ≡ d
  unfolding keep_on_error
  keep_on_error-keeps d (ok a, d') e p = cc
  keep_on_error-keeps d (err x, d') e p = refl

  pub atomic-keeps : (q : Query A) (d : Db) (e : Err) → (atomic q d).0 ≡ err e → (atomic q d).1 ≡ d
  unfolding atomic
  atomic-keeps q d e p = keep_on_error-keeps d (q d) e p

-- What is made of the outcome of a retried function in the end, where its errors are told as they are.
module _ {A B : Type 0} (g : Result Err B → Result Err A)
    (raises : (e : Err) → g (err e) ≡ err e) where
  abbrev told : Action B → Action A
  told m w = let (r, w') = m w in (g r, w')

  -- Running again what wrote nothing comes to the same query.
  again-Refined :
      (d : Db) (s : Result Err A × Db) (rest : Action B)
      → ((w : World) → w.store ≡ d → Refined d s (told rest w))
      → (e : Event) (w : World) → w.store ≡ d
      → Refined d s (told (after_delay rest e) w)
  unfolding after_delay is_fault
  again-Refined d s rest k cancelled w p = Refined.faulted _ refl (raises _) p
  again-Refined d s rest k fine w p = k w p
  again-Refined d s rest k lost_connection w p = k w p
  again-Refined d s rest k lost_reading w p = k w p
  again-Refined d s rest k aborted w p = k w p
  again-Refined d s rest k broken w p = k w p

  retry-Refined :
      (classify : Err → Bool) (d : Db) (s : Result Err A × Db) (rest : Action B)
      → ((e : Err) → s.0 ≡ err e → s.1 ≡ d)
      → ((w : World) → w.store ≡ d → Refined d s (told rest w))
      → (r : Result Err B) (w : World) → Refined d s (g r, w)
      → Refined d s (told (retry classify rest r) w)
  unfolding retry
  retry-Refined classify d s rest keeps k (ok a) w h = h
  retry-Refined classify d s rest keeps k (err e) w h = elim (Bool-cases (classify e)) [
    | inl worth ↦ rw worth (again-Refined d s rest k (draw w).0 (draw w).1 (kept h))
    | inr final ↦ rw final h
  ]
    where
      kept : Refined d s (g (err e), w) → (draw w).1.store ≡ d
      kept (Refined.faulted x f p q) = unfold draw in q
      kept (Refined.ran p q) = unfold draw in q ∙ keeps e (sym p ∙ raises e)

  attempts-Refines :
      (more : ℕ) (classify : Err → Bool) (fn : Action B) (q : Query A)
      → Refines (told fn) (atomic q)
      → Refines (told (attempts more classify fn)) (atomic q)
  unfolding attempts
  attempts-Refines zero classify fn q h = record { at = λ w. h.at w }
  attempts-Refines (suc more) classify fn q h = record {
    at = λ w.
        retry-Refined classify w.store (atomic q w.store) (attempts more classify fn)
          (atomic-keeps q w.store) (λ v p. rw (← p) ((attempts-Refines more classify fn q h).at v))
          (fn w).0 (fn w).1 (h.at w);
  }

  with_retry-Refines :
      (classify : Err → Bool) (fn : Action B) (q : Query A)
      → Refines (told fn) (atomic q)
      → Refines (told (with_retry classify fn)) (atomic q)
  unfolding with_retry
  with_retry-Refines classify fn q h = attempts-Refines 2 classify fn q h

module _ {A : Type 0} where
  read_rows-raises : (e : Err) → read_rows {A = A} (err e) ≡ err e
  unfolding read_rows
  read_rows-raises e = refl

  asked-Refined :
      (e : Event) (q : Query A) (w : World)
      → Refined w.store
          (atomic q w.store)
          (told read_rows read_rows-raises (λ v. asked e (under e q v)) w)
  unfolding asked read_rows under is_fault
  asked-Refined fine q w = Refined.ran refl refl
  asked-Refined lost_connection q w = Refined.faulted _ refl refl refl
  asked-Refined lost_reading q w = Refined.faulted _ refl refl refl
  asked-Refined aborted q w = Refined.faulted _ refl refl refl
  asked-Refined broken q w = Refined.faulted _ refl refl refl
  asked-Refined cancelled q w = Refined.faulted _ refl refl refl

  -- A statement on the pool comes to its query or to a fault.
  retrying-Refines : (c : Call) (q : Query A) → Refines (retrying c q) (atomic q)
  unfolding retrying read_rows ask
  retrying-Refines exec q = record {
    at = λ w. (with_retry-Refines (λ r. r) (λ _. refl) _ (send q) q (send-Refines q)).at w;
  }
  retrying-Refines query q = record {
    at = λ w.
        (with_retry-Refines read_rows read_rows-raises _ (ask q) q
            (record { at = λ v. asked-Refined (draw v).0 q (draw v).1 })).at
          w;
  }

  -- One statement, on the pool or in a transaction, comes to its query or to a fault.
  pub querier-Refines : (ctx : Ctx) (c : Call) (q : Query A) → Refines (querier ctx c q) (atomic q)
  unfolding querier
  querier-Refines tx c q = send-Refines q
  querier-Refines pool c q = retrying-Refines c q

  close-Refined :
      (w : World) (a : A) (d d' : Db) (r : Result Err A) (v : World)
      → Refined d (ok a, d) (r, v)
      → d ≡ d'
      → Refined w.store (ok a, d') (close w r v)
  unfolding close
  close-Refined w a d d' (ok b) v (Refined.faulted e f p k) q = cc
  close-Refined w a d d' (ok b) v (Refined.ran p k) q = Refined.ran p (k ∙ q)
  close-Refined w a d d' (err x) v (Refined.faulted e f p k) q = Refined.faulted e f p refl
  close-Refined w a d d' (err x) v (Refined.ran p k) q = cc

  finish-Refined :
      (w : World) (s : Result Err A × Db) (r : Result Err A) (v : World)
      → Performed s (r, v)
      → Refined w.store (keep_on_error w.store s) (finish w r v)
  unfolding finish keep_on_error
  finish-Refined w s (err e) v (Performed.faulted x f p) = Refined.faulted x f p refl
  finish-Refined w (ok b, d) (err e) v (Performed.ran p k) = cc
  finish-Refined w (err y, d) (err e) v (Performed.ran p k) = Refined.ran p refl
  finish-Refined w s (ok a) v (Performed.faulted x f p) = cc
  finish-Refined w (err y, d) (ok a) v (Performed.ran p k) = cc
  finish-Refined w (ok b, d) (ok a) v (Performed.ran p k) =
      rw (← p)
        (close-Refined w a v.store d _ _ (unfold atomic in (send-Refines (λ c. (ok a, c))).at v) k)

  body-Refined :
      (fn : Ctx → Action A) (q : Query A)
      → Performs (fn tx) q
      → (d : Db) (r : Result Err (Unit {0})) (w : World) → Refined d (ok tt, d) (r, w)
      → Refined d (atomic q d) (body fn r w)
  unfolding body atomic
  body-Refined fn q h d (err e) w (Refined.faulted x f p k) = Refined.faulted x (f) (cc) k
  body-Refined fn q h d (err e) w (Refined.ran p k) = cc
  body-Refined fn q h d (ok _) w (Refined.faulted x f p k) = cc
  body-Refined fn q h d (ok _) w (Refined.ran p k) =
      rw (← k) (finish-Refined w (q w.store) (fn tx w).0 (fn tx w).1 (h.at w))

  -- A transaction comes to its body run as a whole, or to a fault that leaves the database as it was.
  pub do_tx-Refines :
      (fn : Ctx → Action A) (q : Query A) → Performs (fn tx) q → Refines (do_tx pool fn) (atomic q)
  unfolding do_tx round
  do_tx-Refines fn q h =
      with_retry-Refines (λ r. r) (λ _. refl) _ (round fn) q
        (record {
          at = λ w.
              body-Refined fn q h w.store _ _
                (unfold atomic in (send-Refines (λ c. (ok tt, c))).at w);
        })
