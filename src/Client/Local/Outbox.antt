-- ===== src/Client/Local/Outbox.antt =====
-- localstore/outbox_repo.go, kv_store.go and wipe.go
use yandex_go_final_diploma.Prelude.{
  ℕ, ◌+◌, String, Bool, true, false, not, Option, none, some, List, [], ◌∷◌, ◌++◌, ◌==◌, str_eq,
  find, select, update,
}
use yandex_go_final_diploma.Exec.{ok, err}
use yandex_go_final_diploma.Server.Domain.{Bytes}
use yandex_go_final_diploma.Client.Errors.{local_failure}
use yandex_go_final_diploma.Client.Local.{
  Local, OutboxEntry, OutboxStatus, pending, conflicted, Statement,
}

abbrev pub with_entry_id : ℕ → OutboxEntry → Bool
with_entry_id id e = e.id == id

abbrev pub has_status : OutboxStatus → OutboxEntry → Bool
has_status pending e = elim e.status [ pending ↦ true | conflicted ↦ false ]
has_status conflicted e = elim e.status [ pending ↦ false | conflicted ↦ true ]

unfoldable pub find_entry : ℕ → Local → Option OutboxEntry
find_entry id l = find (with_entry_id id) l.outbox

-- The id of the argument is not read; the database gives the next one.
unfoldable pub enqueue_outbox : OutboxEntry → Statement ℕ
enqueue_outbox e l = (
  ok l.next_id,
  record l { outbox = l.outbox ++ record e { id = l.next_id } ∷ []; next_id = l.next_id + 1 },
)

-- Rows come by id, which is the order in which they were inserted.
unfoldable pub list_outbox_by_status : OutboxStatus → Statement (List OutboxEntry)
list_outbox_by_status status l = (ok (select (has_status status) l.outbox), l)

unfoldable pub list_pending_outbox : Statement (List OutboxEntry)
unfolding list_outbox_by_status
list_pending_outbox = list_outbox_by_status pending

unfoldable pub get_outbox : ℕ → Statement (Option OutboxEntry)
unfolding find_entry
get_outbox id l = (ok (find_entry id l), l)

-- No row was affected where the entry is missing, which is an error.
unfoldable pub set_found : Option OutboxEntry → ℕ → OutboxStatus → Statement (Unit {0})
set_found none id status l = (err local_failure, l)
set_found (some _) id status l = (
  ok tt,
  record l { outbox = update (with_entry_id id) (λ e. record e { status = status }) l.outbox },
)

unfoldable pub set_outbox_status : ℕ → OutboxStatus → Statement (Unit {0})
unfolding find_entry set_found
set_outbox_status id status l = set_found (find_entry id l) id status l

unfoldable pub remove_outbox : ℕ → Statement (Unit {0})
remove_outbox id l = (ok tt, record l { outbox = select (λ e. not (with_entry_id id e)) l.outbox })

abbrev pub with_key : String → String × Bytes → Bool
with_key k row = str_eq row.0 k

unfoldable pub kv_get : String → Statement (Option Bytes)
kv_get k l = elim (find (with_key k) l.kv) [ none ↦ (ok none, l) | some (_, v) ↦ (ok (some v), l) ]

unfoldable pub kv_stored :
    String → Bytes → Option (String × Bytes) → List (String × Bytes) → List (String × Bytes)
kv_stored k v none rows = rows ++ (k, v) ∷ []
kv_stored k v (some _) rows = update (with_key k) (λ row. (row.0, v)) rows

unfoldable pub kv_set : String → Bytes → Statement (Unit {0})
unfolding kv_stored
kv_set k v l = (ok tt, record l { kv = kv_stored k v (find (with_key k) l.kv) l.kv })

-- The four DELETEs are one transaction.
unfoldable pub wipe_account_data : Statement (Unit {0})
wipe_account_data l = (ok tt, record l { vaults = []; secrets = []; outbox = []; kv = [] })
