-- ===== src/Server/Auth/OneTime.antt =====
-- Recovery codes behind their marking as used (usecase/auth/recovery.go).
use yandex_go_final_diploma.Prelude.{
  ℕ, String, true, ◌≡◌, ◌≢◌, inl, inr, some, List, [], ◌∷◌, arith, find, update, Option-cases,
  Bool-cases,
}
use yandex_go_final_diploma.Exec.{ok, refuse_if, ◌>>◌}
use yandex_go_final_diploma.Server.Domain.{Bytes}
use yandex_go_final_diploma.Server.Errors.{auth, AuthErr, user_not_found, recovery_code_gone}
use yandex_go_final_diploma.Server.External.{External}
use yandex_go_final_diploma.Server.Store.{
  Db, RecoveryRow, World, Event, Query, atomic, keep_on_error,
}
use yandex_go_final_diploma.Server.Store.Accounts
use yandex_go_final_diploma.Server.Store.Accounts.{with_code, find_code}
use yandex_go_final_diploma.Server.Tx.{pool, alone}
use yandex_go_final_diploma.Server.Tx.Runs.{
  Serves, Serves-querier, Serves-guard, Serves-cases, hide_no_rows, swap_no_rows,
}
use yandex_go_final_diploma.Server.Tx.Serves.{Serves-hide_no_rows}
use yandex_go_final_diploma.Server.Repo.{parse_uuid_or}
use yandex_go_final_diploma.Server.Repo.Serves.{Serves-parse}
use yandex_go_final_diploma.Server.Repo.Recovery as Repo
use yandex_go_final_diploma.Server.Secrets.{is_empty_text}
use yandex_go_final_diploma.Server.Auth.{get_recovery_blob, mark_recovery_code_used}

abbrev spent : RecoveryRow → RecoveryRow
spent r = record r { used = true }

-- Whatever is found under a code that was marked is spent.
find-spent :
    (uid : ℕ) (code : String) (rows : List RecoveryRow) (r : RecoveryRow)
    → find (with_code uid code) (update (with_code uid code) spent rows) ≡ some r
    → r.used ≡ true
unfolding find update
find-spent uid code [] r h = cc
find-spent uid code (s ∷ rows) r h = elim (Bool-cases (with_code uid code s)) [
  | inl e ↦ ground (arith, e, h)
  | inr e ↦ find-spent uid code rows r (ground (arith, e, h))
]

module _ (x : External) (user_id code_id : String) where
  -- Both scenarios on the database alone.
  abbrev blob_of : Query Bytes
  blob_of =
      refuse_if (is_empty_text user_id) (auth AuthErr.empty_user_id)
      >> Repo.get_blob x alone user_id code_id

  abbrev mark : Query (Unit {0})
  mark =
      refuse_if (is_empty_text user_id) (auth AuthErr.empty_user_id)
      >> Repo.mark_used x alone user_id code_id

  Serves-get_recovery_blob : Serves (get_recovery_blob x pool user_id code_id) blob_of
  unfolding get_recovery_blob Repo.get_blob
  Serves-get_recovery_blob = Serves-guard (is_empty_text user_id) (auth AuthErr.empty_user_id) _ _ (
      Serves-parse (auth user_not_found) _ _ x user_id (λ uid.
        Serves-hide_no_rows recovery_code_gone _ _
          (Serves-querier pool _ (Accounts.get_recovery_blob uid code_id))))

  Serves-mark_recovery_code_used : Serves (mark_recovery_code_used x pool user_id code_id) mark
  unfolding mark_recovery_code_used Repo.mark_used
  Serves-mark_recovery_code_used =
      Serves-guard (is_empty_text user_id) (auth AuthErr.empty_user_id) _ _ (
        Serves-parse (auth user_not_found) _ _ x user_id
          (λ uid. Serves-querier pool _ (Accounts.mark_recovery_code_used uid code_id)))

  -- On the database alone, a marked code has no blob.
  marked-gone : (d : Db) (b : Bytes) → (mark d).0 ≡ ok tt → (blob_of (mark d).1).0 ≢ ok b
  unfolding refuse_if Repo.mark_used Repo.get_blob parse_uuid_or atomic keep_on_error
      Accounts.mark_recovery_code_used Accounts.get_recovery_blob find_code hide_no_rows
      swap_no_rows
  marked-gone d b h k = elim (Option-cases (x.parse_uuid user_id)) [
    | inl e ↦ ground (arith, e, h)
    | inr (uid, e) ↦
        elim (Option-cases
          (find (with_code uid code_id) (update (with_code uid code_id) spent d.recovery_codes))) [
            | inl f ↦ ground (arith, e, f, h, k)
            | inr (r, f) ↦ ground (arith, e, f, h, k, find-spent uid code_id d.recovery_codes r f)
          ]
  ]

  -- Once the marking of a recovery code is acknowledged, asking for its blob is refused, whatever
  -- failures there were and are.
  pub mark-refused :
      (w : World) (events : List Event) (b : Bytes)
      → (mark_recovery_code_used x pool user_id code_id w).0 ≡ ok tt
      → (get_recovery_blob x pool user_id code_id (record {
        store = (mark_recovery_code_used x pool user_id code_id w).1.store;
        events = events;
      })).0
        ≢ ok b
  mark-refused w events b h k = elim (Serves-cases Serves-mark_recovery_code_used w) [
    | inl (e, _, f, _) ↦ cc (f, h)
    | inr (same, left) ↦
        elim (Serves-cases Serves-get_recovery_blob (record {
          store = (mark_recovery_code_used x pool user_id code_id w).1.store;
          events = events;
        })) [
          | inl (e, _, f, _) ↦ cc (f, k)
          | inr (told, _) ↦ marked-gone w.store b (cc (same, h)) (cc (told, k, left))
        ]
  ]
