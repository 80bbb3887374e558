-- ===== src/Server/Tx.antt =====
-- infra/postgres: retries (retry.go), the choice between a transaction and the pool (retrying_db.go,
-- base.go) and transactions (tx.go).
pub mod Refines
pub mod Calm
pub mod Runs
pub mod Outages
pub mod Serves
pub mod Steps
use yandex_go_final_diploma.Prelude.{ℕ, zero, suc, Bool, if◌then◌else◌}
use yandex_go_final_diploma.Exec.{Exec, Result, ok, err}
use yandex_go_final_diploma.Server.Errors.{
  Err, db, conn_lost, context_done, is_conn_retryable, is_tx_retryable,
}
use yandex_go_final_diploma.Server.Store.{
  Db, World, Event, lost_connection, cancelled, Action, Query, atomic, draw, under, send,
}

-- What the context of a call carries: an open transaction, or nothing.
pub data Ctx : Type 0 where
  pool tx : Ctx

-- `select` on the cancellation of the request and the timer.
unfoldable pub after_delay : {A : Type 0} → Action A → Event → Action A
after_delay rest cancelled w = (err context_done, w)
after_delay rest _ w = rest w

-- What follows a round of `withRetry`: an error that is worth it is tried again after the delay.
unfoldable pub retry : {A : Type 0} → (Err → Bool) → Action A → Result Err A → Action A
unfolding after_delay draw
retry classify rest (ok a) w = (ok a, w)
retry classify rest (err e) w =
    if classify e then (let (event, w') = draw w in after_delay rest event w') else (err e, w)

-- The rounds of `withRetry`, `more` of them behind the one at hand: the last one does not wait.
unfoldable pub attempts : {A : Type 0} → ℕ → (Err → Bool) → Action A → Action A
unfolding retry
attempts zero classify fn w = fn w
attempts (suc more) classify fn w =
    let (r, w') = fn w in retry classify (attempts more classify fn) r w'

-- retryMaxAttempts - 1
abbrev pub more_attempts : ℕ
more_attempts = 2

unfoldable pub with_retry : {A : Type 0} → (Err → Bool) → Action A → Action A
unfolding attempts
with_retry classify fn = attempts more_attempts classify fn

-- Which function of `DBTX` the generated code calls: `Exec`, or `Query` and `QueryRow`, whose rows are
-- read afterwards.
pub data Call : Type 0 where
  exec query : Call

-- `Pool.Query` itself fails only where the connection is lost on the way; how the statement went is
-- seen where the rows are read.
unfoldable pub asked :
    {A : Type 0} → Event → Result Err A × World → Result Err (Result Err A) × World
asked lost_connection (r, w) = (err (db conn_lost), w)
asked _ (r, w) = (ok r, w)

unfoldable pub ask : {A : Type 0} → Query A → Action (Result Err A)
unfolding asked draw under
ask q w = let (e, w') = draw w in asked e (under e q w')

-- `rows.Next`, `Scan` and `Err` report what the rows came to.
unfoldable pub read_rows : {A : Type 0} → Result Err (Result Err A) → Result Err A
read_rows (err e) = err e
read_rows (ok r) = r

-- `retryingDB`: `Exec` is retried as a whole, of `Query` and `QueryRow` only `Pool.Query` is.
unfoldable pub retrying : {A : Type 0} → Call → Query A → Action A
unfolding with_retry send ask read_rows
retrying exec q w = with_retry is_conn_retryable (send q) w
retrying query q w = let (r, w') = with_retry is_conn_retryable (ask q) w in (read_rows r, w')

-- `querier`: in a transaction a statement is sent once, on the pool it goes through `retryingDB`.
unfoldable pub querier : {A : Type 0} → Ctx → Call → Query A → Action A
unfolding retrying send
querier tx c q = send q
querier pool c q = retrying c q

-- The rollback puts back what the transaction found; the environment has moved on.
unfoldable pub rollback : World → World → World
rollback before after = record after { store = before.store }

-- The deferred rollback changes nothing behind a commit.
unfoldable pub close : {A : Type 0} → World → Result Err A → Action A
unfolding rollback
close before (ok a) w = (ok a, w)
close before (err e) w = (err e, rollback before w)

-- Commit, or roll back where `fn` or the commit failed. A commit that fails has not taken effect.
unfoldable pub finish : {A : Type 0} → World → Result Err A → Action A
unfolding close send
finish before (err e) w = close before (err e) w
finish before (ok a) w = let (r, w') = send (λ d. (ok a, d)) w in close before r w'

-- The body runs in the transaction that begin has opened.
unfoldable pub body : {A : Type 0} → (Ctx → Action A) → Result Err (Unit {0}) → Action A
unfolding finish
body fn (err e) w = (err e, w)
body fn (ok _) w = let (r, w') = fn tx w in finish w r w'

-- One round of `Do`: begin, the body in the transaction, finish.
unfoldable pub round : {A : Type 0} → (Ctx → Action A) → Action A
unfolding body send
round fn w = let (r, w') = send (λ d. (ok tt, d)) w in body fn r w'

-- `TxManager.Do`
unfoldable pub do_tx : {A : Type 0} → Ctx → (Ctx → Action A) → Action A
unfolding with_retry round
do_tx tx fn = fn tx
do_tx pool fn = with_retry is_tx_retryable (round fn)

-- What runs a repository's statements: `baseRepo.q(ctx)`, or the database alone.
abbrev pub Runner : Type 0 → Type 1
Runner S = (A : Type 0) → Call → Query A → Exec S Err A

-- `baseRepo.q`
abbrev pub q : Ctx → Runner World
q ctx A = querier ctx

-- Statement after statement, with no environment.
abbrev pub alone : Runner Db
alone A c = atomic
