-- ===== src/Server/Tx/Outages.antt =====
-- Lost connections in front of a statement on the pool.
use yandex_go_final_diploma.Prelude.{ℕ, zero, suc, ◌≤◌, false, ◌≡◌, refl, List, ◌∷◌, arith}
use yandex_go_final_diploma.Exec.{Result, ok, err}
use yandex_go_final_diploma.Server.Errors.{Err, db, conn_lost, is_conn_retryable}
use yandex_go_final_diploma.Server.Store.{
  Db, World, Event, fine, lost_connection, lost_reading, Action, Query, atomic, keep_on_error, draw,
  under, send,
}
use yandex_go_final_diploma.Server.Tx.{
  pool, Call, exec, query, querier, retrying, with_retry, attempts, retry, after_delay, ask, asked,
  read_rows,
}

-- The connection is lost n times, the waits between are not cancelled, and then comes an event.
unfoldable pub outages : Event → ℕ → List Event → List Event
outages last zero rest = last ∷ rest
outages last (suc n) rest = lost_connection ∷ fine ∷ outages last n rest

-- The statement's own errors are none that a retry could mend.
abbrev pub Settled : {A : Type 0} → Result Err A → Type 0
Settled r = elim r [ ok a ↦ Unit {0} | err e ↦ is_conn_retryable e ≡ false ]

settle :
    {A : Type 0} (rest : Action A) (r : Result Err A) (w : World)
    → Settled r
    → retry is_conn_retryable rest r w ≡ (r, w)
unfolding retry
settle rest (ok a) w s = refl
settle rest (err e) w s = rw s

lost_once :
    {A : Type 0} (m : Action A) {d : Db} {events : List Event} (r : Result Err A × World)
    → m (record { store = d; events = events }) ≡ r
    → retry is_conn_retryable m (err (db conn_lost)) (record { store = d; events = fine ∷ events })
      ≡ r
unfolding retry after_delay is_conn_retryable draw
lost_once m r h = h

keep_on_error-Settled :
    {A : Type 0} (d : Db) (s : Result Err A × Db) → Settled s.0 → Settled (keep_on_error d s).0
unfolding keep_on_error
keep_on_error-Settled d (ok a, d') s = s
keep_on_error-Settled d (err e, d') s = s

module _ {A : Type 0} (q : Query A) (d : Db) (rest : List Event) where
  attempts-ride :
      (more n : ℕ)
      → Settled (q d).0
      → n ≤ more
      → attempts more is_conn_retryable
          (send q)
          (record { store = d; events = outages fine n rest })
        ≡ ((atomic q d).0, record { store = (atomic q d).1; events = rest })
  unfolding attempts outages send under draw atomic
  attempts-ride zero zero s le = refl
  attempts-ride (suc more) zero s le =
      settle _ (keep_on_error d (q d)).0 _ (keep_on_error-Settled d (q d) s)
  attempts-ride (suc more) (suc n) s le =
      lost_once (attempts more is_conn_retryable (send q)) _
        (attempts-ride more n s (omega (arith, le)))
  attempts-ride zero (suc n) s le = ground (arith, le)

  -- Where `Query` returns the rows, what they come to is not looked at by the retries.
  asked-ride :
      (last : Event)
      → ((r : Result Err A × World) → asked last r ≡ (ok r.0, r.1))
      → (more n : ℕ) → n ≤ more
      → attempts more is_conn_retryable (ask q) (record { store = d; events = outages last n rest })
        ≡ (let (r, w) = under last q (record { store = d; events = rest }) in (ok r, w))
  unfolding attempts outages ask draw retry
  asked-ride last h zero zero le = h _
  asked-ride last h (suc more) zero le = rw h refl
  asked-ride last h (suc more) (suc n) le =
      unfold asked in
      lost_once (attempts more is_conn_retryable (ask q)) _
        (asked-ride last h more n (omega (arith, le)))
  asked-ride last h zero (suc n) le = ground (arith, le)

  querier-rides :
      (c : Call) (n : ℕ)
      → Settled (q d).0
      → n ≤ 2
      → querier pool c q (record { store = d; events = outages fine n rest })
        ≡ ((atomic q d).0, record { store = (atomic q d).1; events = rest })
  unfolding querier retrying with_retry read_rows asked
  querier-rides exec n s le = attempts-ride 2 n s le
  querier-rides query n s le = rw (asked-ride fine (λ _. refl) 2 n le) (unfold under in refl)

  querier-gives_up :
      (c : Call) (n : ℕ)
      → querier pool c q (record { store = d; events = outages fine (suc (suc (suc n))) rest })
        ≡ (err (db conn_lost), record { store = d; events = fine ∷ outages fine n rest })
  unfolding querier retrying with_retry attempts outages send ask asked read_rows under draw atomic
      retry after_delay is_conn_retryable
  querier-gives_up exec n = refl
  querier-gives_up query n = refl

  querier-reading :
      (n : ℕ)
      → n ≤ 2
      → querier pool query q (record { store = d; events = outages lost_reading n rest })
        ≡ (err (db conn_lost), record { store = d; events = rest })
  unfolding querier retrying with_retry read_rows asked
  querier-reading n le = rw (asked-ride lost_reading (λ _. refl) 2 n le) (unfold under in refl)

  -- Where the environment only loses connections: after up to two losses before `Exec` or `Query` has
  -- its answer, a statement on the pool, if its own error, should it have one, is not itself a lost
  -- connection, does just what it does where nothing fails; after three or more it reports the loss
  -- and has changed nothing. A loss where the rows of `Query` are read, behind up to two that were
  -- mended, is reported at once, with no further try and nothing changed.
  pub querier-outages :
      (c : Call) (n more : ℕ)
      → Settled (q d).0
      → n ≤ 2
      → (querier pool c q (record { store = d; events = outages fine n rest })
          ≡ ((atomic q d).0, record { store = (atomic q d).1; events = rest }))
        × (querier pool c q
              (record { store = d; events = outages fine (suc (suc (suc more))) rest })
            ≡ (err (db conn_lost), record { store = d; events = fine ∷ outages fine more rest }))
        × (querier pool query q (record { store = d; events = outages lost_reading n rest })
            ≡ (err (db conn_lost), record { store = d; events = rest }))
  querier-outages c n more s le =
      (querier-rides c n s le, querier-gives_up c more, querier-reading n le)
