-- ===== src/Server/Tx/Calm.antt =====
-- Repository code in an environment that causes no failure, against its query: `Calm`, and the rules
-- by which code is built.
use yandex_go_final_diploma.Prelude.{ℕ, zero, suc, Bool, ◌≡◌, refl, [], ◌∙◌, Bool-cases, inl, inr}
use yandex_go_final_diploma.Exec.{Result, ok, err, pure, raise, continue, ◌>>=◌}
use yandex_go_final_diploma.Server.Errors.{Err}
use yandex_go_final_diploma.Server.Store.{
  Db, World, Action, Query, atomic, keep_on_error, draw, under, send,
}
use yandex_go_final_diploma.Server.Tx.{
  Ctx, pool, tx, Call, exec, query, attempts, retry, with_retry, ask, asked, read_rows, retrying,
  querier, finish, round, do_tx,
}
use yandex_go_final_diploma.Server.Tx.Refines.{atomic-keeps}

abbrev pub quiet : Db → World
quiet d = record { store = d; events = [] }

abbrev pub with_quiet : {A : Type 0} → Result Err A × Db → Result Err A × World
with_quiet s = (s.0, quiet s.1)

module _ {A : Type 0} where
  pub record Calm (m : Action A) (q : Query A) : Type 0 where
    pub at : (d : Db) → m (quiet d) ≡ with_quiet (q d)

  pub pure-Calm : (a : A) → Calm (pure a) (pure a)
  pure-Calm a = record { at = λ d. refl }

  pub raise-Calm : (e : Err) → Calm (raise e) (raise e)
  raise-Calm e = record { at = λ d. refl }

  pub send-Calm : (q : Query A) → Calm (send q) (atomic q)
  unfolding send
  send-Calm q = record { at = λ d. refl }

module _ {A B : Type 0} where
  continue-Calm :
      (f : A → Action B) (g : A → Query B)
      → ((a : A) → Calm (f a) (g a))
      → (s : Result Err A) (d : Db) → continue s f (quiet d) ≡ with_quiet (continue s g d)
  continue-Calm f g k (ok a) d = (k a).at d
  continue-Calm f g k (err e) d = refl

  pub bind-Calm :
      (m : Action A) (q : Query A) (f : A → Action B) (g : A → Query B)
      → Calm m q
      → ((a : A) → Calm (f a) (g a))
      → Calm (m >>= f) (q >>= g)
  bind-Calm m q f g h k = record { at = λ d. rw h.at (continue-Calm f g k (q d).0 (q d).1) }

module _ {A : Type 0} where
  retry-Calm :
      (classify : Err → Bool) (d : Db) (s : Result Err A × Db) (rest : Action A)
      → ((e : Err) → s.0 ≡ err e → s.1 ≡ d)
      → rest (quiet d) ≡ with_quiet s
      → retry classify rest s.0 (quiet s.1) ≡ with_quiet s
  unfolding retry
  retry-Calm classify d (ok a, d') rest keeps k = refl
  retry-Calm classify d (err e, d') rest keeps k = elim (Bool-cases (classify e)) [
    | inl worth ↦ rw worth (rw (keeps e refl) (k ∙ rw (keeps e refl)))
    | inr final ↦ rw final
  ]

  attempts-Calm :
      (more : ℕ) (classify : Err → Bool) (fn : Action A) (q : Query A)
      → Calm fn (atomic q)
      → Calm (attempts more classify fn) (atomic q)
  unfolding attempts
  attempts-Calm zero classify fn q h = record { at = λ d. h.at d }
  attempts-Calm (suc more) classify fn q h = record {
    at = λ d. rw h.at (
        retry-Calm classify d (atomic q d) (attempts more classify fn) (atomic-keeps q d)
          ((attempts-Calm more classify fn q h).at d));
  }

  with_retry-Calm :
      (classify : Err → Bool) (fn : Action A) (q : Query A)
      → Calm fn (atomic q)
      → Calm (with_retry classify fn) (atomic q)
  unfolding with_retry
  with_retry-Calm classify fn q h = attempts-Calm 2 classify fn q h

  -- In a calm environment `Query` returns its rows.
  retrying-Calm : (c : Call) (q : Query A) → Calm (retrying c q) (atomic q)
  unfolding retrying with_retry attempts retry ask asked read_rows draw under atomic
  retrying-Calm exec q = record { at = λ d. (with_retry-Calm _ (send q) q (send-Calm q)).at d }
  retrying-Calm query q = record { at = λ d. refl }

  pub querier-Calm : (ctx : Ctx) (c : Call) (q : Query A) → Calm (querier ctx c q) (atomic q)
  unfolding querier
  querier-Calm tx c q = send-Calm q
  querier-Calm pool c q = retrying-Calm c q

  finish-Calm :
      (d : Db) (s : Result Err A × Db)
      → finish (quiet d) s.0 (quiet s.1) ≡ with_quiet (keep_on_error d s)
  unfolding finish keep_on_error
  finish-Calm d (ok a, d') = refl
  finish-Calm d (err e, d') = refl

  pub do_tx-Calm :
      (fn : Ctx → Action A) (q : Query A) → Calm (fn tx) q → Calm (do_tx pool fn) (atomic q)
  unfolding do_tx round atomic
  do_tx-Calm fn q h =
      with_retry-Calm _ (round fn) q (record { at = λ d. rw h.at (finish-Calm d (q d)) })
