-- ===== src/Client/Replay/Waits.antt =====
-- Entries of the queue that wait there while others are marked or removed.
use yandex_go_final_diploma.Prelude.{
  ℕ, true, false, Option, none, some, ◌≡◌, ◌⊎◌, inl, inr, sym, subst, arith, ◌==◌, not, find,
  update, Bool-cases,
}
use yandex_go_final_diploma.Client.Local.{Local, OutboxEntry, conflicted}
use yandex_go_final_diploma.Client.Local.Outbox as Outbox
use yandex_go_final_diploma.Client.Local.Outbox.{find_entry, with_entry_id}
use yandex_go_final_diploma.Client.Local.Tables.{
  find-update_other, find-update_same, find-select_other,
}

-- The entry as a refused one stands in the queue.
abbrev pub set_aside : OutboxEntry → OutboxEntry
set_aside e = record e { status = conflicted }

-- The entry is in the queue, as it was or in conflict.
abbrev pub Waits : OutboxEntry → Local → Type 0
Waits e l = (find_entry e.id l ≡ some e) ⊎ (find_entry e.id l ≡ some (set_aside e))

apart : (a b n : ℕ) → (b == n) ≡ false → (a == n) ≡ true → (a == b) ≡ false
apart a b n other same = ground (arith, other, same)

same_id : (a n : ℕ) → (a == n) ≡ true → a ≡ n
same_id a n same = ground (arith, same)

marked :
    (e : OutboxEntry) (l : Local)
    → Waits e l
    → find (with_entry_id e.id) (update (with_entry_id e.id) set_aside l.outbox)
      ≡ some (set_aside e)
unfolding find_entry
marked e l (inl f) = find-update_same (with_entry_id e.id) set_aside (λ a p. p) l.outbox e f
marked e l (inr f) =
    find-update_same (with_entry_id e.id) set_aside (λ a p. p) l.outbox (set_aside e) f

pub set_status-Waits :
    (e : OutboxEntry) (n : ℕ) (found : Option OutboxEntry) (l : Local)
    → Waits e l
    → Waits e (Outbox.set_found found n conflicted l).1
unfolding Outbox.set_found find_entry
set_status-Waits e n none l h = h
set_status-Waits e n (some _) l h = elim (Bool-cases (e.id == n)) [
  | inl same ↦
      subst (λ m. Waits e (record l { outbox = update (with_entry_id m) set_aside l.outbox }))
        (same_id e.id n same) (inr (marked e l h))
  | inr other ↦
      subst (λ o. (o ≡ some e) ⊎ (o ≡ some (set_aside e)))
        (sym (
          find-update_other (with_entry_id e.id) (with_entry_id n) set_aside
            (λ a same. (apart a.id e.id n other same, apart a.id e.id n other same)) l.outbox))
        h
]

pub remove-Waits :
    (e : OutboxEntry) (n : ℕ) (l : Local)
    → (e.id == n) ≡ false
    → Waits e l
    → Waits e (Outbox.remove_outbox n l).1
unfolding Outbox.remove_outbox find_entry
remove-Waits e n l other h =
    subst (λ o. (o ≡ some e) ⊎ (o ≡ some (set_aside e)))
      (sym (
        find-select_other (with_entry_id e.id) (λ a. not (with_entry_id n a))
          (λ a p. kept a.id e.id n other p) l.outbox))
      h
  where
    kept : (a b n : ℕ) → (b == n) ≡ false → (a == b) ≡ true → not (a == n) ≡ true
    kept a b n other same = ground (arith, other, same)
