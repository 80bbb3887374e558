-- ===== src/Client/Sync/Listed.antt =====
-- The secrets in the queue, as synchronisation collects them.
use yandex_go_final_diploma.Prelude.{
  String, Bool, true, ◌&&◌, ◌||◌, List, [], ◌∷◌, ◌++◌, map, ◌≡◌, refl, sym, ap, ◌∙◌, inl, inr,
  str_eq, any, select, Bool-cases, arith,
}
use yandex_go_final_diploma.Exec.{ok}
use yandex_go_final_diploma.Exec.Returns.{bind-ok, ok-injective}
use yandex_go_final_diploma.Client.Local.{OutboxEntry, OutboxStatus, pending, conflicted}
use yandex_go_final_diploma.Client.Local.Outbox as Outbox
use yandex_go_final_diploma.Client.Device.{Device, ServerClient, run_local}
use yandex_go_final_diploma.Client.Device.Returns.{run_local-ok}
use yandex_go_final_diploma.Client.Sync.{is_secret_entry, outstanding_secret_ids}

-- Some entry of the queue, pending or in conflict, is about the secret.
unfoldable pub is_outstanding : String → List OutboxEntry → Bool
is_outstanding id outbox = any (λ e. is_secret_entry e && str_eq id e.entity_id) outbox

any-append :
    {A : Type 0} (p : A → Bool) (xs ys : List A) → any p (xs ++ ys) ≡ (any p xs || any p ys)
unfolding any
any-append p [] ys = refl
any-append p (x ∷ xs) ys = elim (Bool-cases (p x)) [
  | inl h ↦ rw h
  | inr h ↦ rw (h, any-append p xs ys)
]

-- The secrets that the queue names under one status.
abbrev listed_under : OutboxStatus → List OutboxEntry → List String
listed_under status outbox =
    map (λ e. e.entity_id) (select is_secret_entry (select (Outbox.has_status status) outbox))

about : String → OutboxEntry → Bool
about id e = is_secret_entry e && str_eq id e.entity_id

listed_step :
    (status : OutboxStatus) (id : String) (e : OutboxEntry) (outbox : List OutboxEntry)
    → any (str_eq id) (listed_under status (e ∷ outbox))
      ≡ ((Outbox.has_status status e && about id e) || any (str_eq id) (listed_under status outbox))
unfolding any select about
listed_step status id e outbox = elim (Bool-cases (Outbox.has_status status e)) [
  | inr h ↦ rw h
  | inl h ↦ elim (Bool-cases (is_secret_entry e)) [ inl k ↦ rw (h, k) | inr k ↦ rw (h, k) ]
]

one_status :
    (e : OutboxEntry) → (Outbox.has_status pending e || Outbox.has_status conflicted e) ≡ true
one_status e =
    elim e.status
      as (λ s.
        (Outbox.has_status pending (record e { status = s })
          || Outbox.has_status conflicted (record e { status = s }))
        ≡ true) [ pending ↦ refl | conflicted ↦ refl ]

either :
    (p c a x y r : Bool)
    → (p || c) ≡ true
    → (a || r) ≡ true
    → (r ≡ true → (x || y) ≡ true)
    → (((p && a) || x) || ((c && a) || y)) ≡ true
either p c a x y r one out rest = ground arith

either_status :
    (id : String) (outbox : List OutboxEntry)
    → is_outstanding id outbox ≡ true
    → (any (str_eq id) (listed_under pending outbox)
        || any (str_eq id) (listed_under conflicted outbox))
      ≡ true
unfolding is_outstanding any select about
either_status id [] out = out
either_status id (e ∷ outbox) out =
    rw (listed_step pending id e outbox, listed_step conflicted id e outbox)
      (either (Outbox.has_status pending e) (Outbox.has_status conflicted e) (about id e) _ _
        (is_outstanding id outbox) (one_status e) out (either_status id outbox))

collected :
    (id : String) (outbox p c : List OutboxEntry) (ids : List String)
    → select (Outbox.has_status pending) outbox ≡ p
    → select (Outbox.has_status conflicted) outbox ≡ c
    → map (λ e. e.entity_id) (select is_secret_entry p)
        ++ map (λ e. e.entity_id) (select is_secret_entry c)
      ≡ ids
    → is_outstanding id outbox ≡ true
    → any (str_eq id) ids ≡ true
collected id outbox p c ids hp hc hids out =
    ap (any (str_eq id)) (sym hids)
    ∙ any-append (str_eq id) _ _
    ∙ ap
        (λ x.
          any (str_eq id) (map (λ e. e.entity_id) (select is_secret_entry x))
          || any (str_eq id) (map (λ e. e.entity_id) (select is_secret_entry c)))
        (sym hp)
    ∙ ap
        (λ x.
          any (str_eq id) (listed_under pending outbox)
          || any (str_eq id) (map (λ e. e.entity_id) (select is_secret_entry x)))
        (sym hc)
    ∙ either_status id outbox out

module _ {S : Type 0} (server : ServerClient S) (id : String) where
  -- The ids that were collected have that of each secret in the queue.
  pub outstanding-listed :
      (d : Device S) (ids : List String)
      → (outstanding_secret_ids server d).0 ≡ ok ids
      → is_outstanding id d.local.outbox ≡ true
      → any (str_eq id) ids ≡ true
  unfolding outstanding_secret_ids Outbox.list_pending_outbox Outbox.list_outbox_by_status
  outstanding-listed d ids h out =
      let r = bind-ok (run_local Outbox.list_pending_outbox) _ d ids h in
      let (p, same) = run_local-ok Outbox.list_pending_outbox d r.value r.first in
      let q = bind-ok (run_local (Outbox.list_outbox_by_status conflicted)) _ _ ids r.second in
      let (c, _) = run_local-ok (Outbox.list_outbox_by_status conflicted) _ q.value q.first in
      collected id d.local.outbox r.value q.value ids (ok-injective p)
        (ap (λ l. select (Outbox.has_status conflicted) l.outbox) (sym same) ∙ ok-injective c)
        (ok-injective q.second) out
