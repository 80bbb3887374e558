-- ===== src/Client/Replay/Kept.antt =====
-- Where an entry of the queue is after the queue was replayed.
use yandex_go_final_diploma.Prelude.{
  ℕ, String, Bool, true, false, Option, none, some, List, [], ◌∷◌, ◌≡◌, ◌⊎◌, inl, inr, refl, ◌∙◌,
  subst, arith, ◌==◌, Bool-cases, All,
}
use yandex_go_final_diploma.Exec.{Exec, Result, ok, err, pure, ◌>>=◌}
use yandex_go_final_diploma.Exec.Keeps.{
  Keeps, Preorder, pure-Keeps, raise-Keeps, bind-Keeps, bind-at, if-Keeps,
}
use yandex_go_final_diploma.Exec.Returns.{ok-injective}
use yandex_go_final_diploma.Client.Errors.{ClientErr, is_offline}
use yandex_go_final_diploma.Client.Local.{
  Local, LocalSecret, Statement, OutboxEntry, OutboxOp, create, delete, blob_upload, unknown,
  pending, conflicted,
}
use yandex_go_final_diploma.Client.Local.Secrets as Secrets
use yandex_go_final_diploma.Client.Local.Outbox as Outbox
use yandex_go_final_diploma.Client.Local.Outbox.{find_entry, with_entry_id}
use yandex_go_final_diploma.Client.Local.Unique.{All-select}
use yandex_go_final_diploma.Client.Local.Keys.{Keyed, OnlyOne, Keyed-OnlyOne}
use yandex_go_final_diploma.Client.Sync.{is_secret_entry}
use yandex_go_final_diploma.Client.Device.{
  Device, ServerClient, Scenario, Json, run_local, run_remote, access_token,
}
use yandex_go_final_diploma.Client.Device.Keeps.{statement-Keeps}
use yandex_go_final_diploma.Client.Device.Returns.{run_local-ok}
use yandex_go_final_diploma.Client.Replay.{
  Uploader, decode, attempt, upload_failed, upload_by, replay_create, replay_update, replay_delete,
  replay_blob_upload, replay_op, replay_entry, settle, replay_entries, replay_outbox,
}
use yandex_go_final_diploma.Client.Replay.Recorded.{
  Change, recorded, recorded_uploader, noting, Accepted, noting-grows,
}
use yandex_go_final_diploma.Client.Replay.Waits.{Waits, set_status-Waits, remove-Waits}
use yandex_go_final_diploma.Client.Replay.Parts.{
  decoded-Keeps, attempt-Keeps, conflict-Keeps, upload_failed-Keeps, handled-Keeps, then_true,
}
use yandex_go_final_diploma.Client.Replay.Answers.{replay_entry-Accepted}

flipped : (a b : ℕ) → (a == b) ≡ true → (b == a) ≡ true
flipped a b h = ground (arith, h)

module _ {S : Type 0} (json : Json) (e : OutboxEntry) where
  -- The entry waits, or the server has accepted what it stands for.
  abbrev Safe : Device (S × List Change) → Type 0
  Safe d = Waits e d.local ⊎ Accepted json e d.remote.1

  abbrev StaysSafe : Device (S × List Change) → Device (S × List Change) → Type 0
  StaysSafe d d' = Safe d → Safe d'

  StaysSafe-Preorder : Preorder StaysSafe
  StaysSafe-Preorder = record { stays = λ d h. h; chain = λ a b c ab bc h. bc (ab h) }

  statement-Safe :
      {A : Type 0} (st : Statement A)
      → ((l : Local) → Waits e l → Waits e (st l).1)
      → Keeps StaysSafe (run_local st)
  statement-Safe st keeps =
      statement-Keeps StaysSafe st (λ d faults h. h)
        λ d faults h. elim h [ inl w ↦ inl (keeps d.local w) | inr a ↦ inr a ]

  rows-Safe : (s : LocalSecret) → Keeps StaysSafe (run_local (Secrets.upsert_secret_row s))
  unfolding Secrets.upsert_secret_row find_entry
  rows-Safe s = statement-Safe (Secrets.upsert_secret_row s) (λ l h. h)

  deletion-Safe : (id : String) → Keeps StaysSafe (run_local (Secrets.delete_secret id))
  unfolding Secrets.delete_secret find_entry
  deletion-Safe id = statement-Safe (Secrets.delete_secret id) (λ l h. h)

  marking-Safe : (n : ℕ) → Keeps StaysSafe (run_local (Outbox.set_outbox_status n conflicted))
  unfolding Outbox.set_outbox_status
  marking-Safe n =
      statement-Safe (Outbox.set_outbox_status n conflicted)
        λ l. set_status-Waits e n (find_entry n l) l

  Done : Device (S × List Change) → Device (S × List Change) → Type 0
  Done d d' = Accepted json e d.remote.1 → Accepted json e d'.remote.1

  removal-Done : (n : ℕ) → Keeps Done (run_local (Outbox.remove_outbox n))
  unfolding Done
  removal-Done n = statement-Keeps Done (Outbox.remove_outbox n) (λ d faults h. h) (λ d faults h. h)

  removal-Safe :
      (n : ℕ) → (e.id == n) ≡ false → Keeps StaysSafe (run_local (Outbox.remove_outbox n))
  removal-Safe n other = statement-Safe (Outbox.remove_outbox n) λ l. remove-Waits e n l other

  call-Safe :
      {A : Type 0} (c : Change) (call : Exec S ClientErr A)
      → Keeps StaysSafe (run_remote (noting c call))
  unfolding run_remote
  call-Safe c call = record {
    at = λ d h. elim h [
      | inl w ↦ inl w
      | inr a ↦ inr (record {
        change = a.change;
        stands_for = a.stands_for;
        is_noted = noting-grows c call d.remote a.change a.is_noted;
      })
    ];
  }

  module _ (server : ServerClient S) (token : String) (x : OutboxEntry) where
    upload_by-Safe :
        (u : Option (Uploader S)) → Keeps StaysSafe (upload_by json (recorded_uploader u) x)
    unfolding upload_by recorded_uploader decode
    upload_by-Safe none = raise-Keeps StaysSafe-Preorder _
    upload_by-Safe (some upload) =
        bind-Keeps StaysSafe-Preorder _ _ (decoded-Keeps StaysSafe-Preorder _) λ p.
          bind-Keeps StaysSafe-Preorder _ _
            (attempt-Keeps StaysSafe-Preorder _ (call-Safe _ (upload p.secret_id p.vault_id)))
            (handled-Keeps StaysSafe-Preorder upload_failed (pure true)
              (upload_failed-Keeps StaysSafe-Preorder) (pure-Keeps StaysSafe-Preorder true))

    replay_op-Safe :
        (u : Option (Uploader S)) (op : OutboxOp)
        → Keeps StaysSafe (replay_op (recorded server) (recorded_uploader u) json token x op)
    unfolding replay_op replay_create replay_update replay_delete replay_blob_upload recorded decode
    replay_op-Safe u create =
        bind-Keeps StaysSafe-Preorder _ _ (decoded-Keeps StaysSafe-Preorder _) λ p.
          bind-Keeps StaysSafe-Preorder _ _ (call-Safe _ _)
            λ _. then_true StaysSafe-Preorder _ (rows-Safe _)
    replay_op-Safe u OutboxOp.update =
        bind-Keeps StaysSafe-Preorder _ _ (decoded-Keeps StaysSafe-Preorder _) λ p.
          bind-Keeps StaysSafe-Preorder _ _ (attempt-Keeps StaysSafe-Preorder _ (call-Safe _ _)) (
            handled-Keeps StaysSafe-Preorder _ _
              (conflict-Keeps StaysSafe-Preorder x (marking-Safe x.id))
              (then_true StaysSafe-Preorder _ (rows-Safe _)))
    replay_op-Safe u delete =
        bind-Keeps StaysSafe-Preorder _ _ (decoded-Keeps StaysSafe-Preorder _) λ p.
          bind-Keeps StaysSafe-Preorder _ _ (attempt-Keeps StaysSafe-Preorder _ (call-Safe _ _)) (
            handled-Keeps StaysSafe-Preorder _ _
              (conflict-Keeps StaysSafe-Preorder x (marking-Safe x.id))
              (then_true StaysSafe-Preorder _ (deletion-Safe _)))
    replay_op-Safe u blob_upload = upload_by-Safe u
    replay_op-Safe u unknown = raise-Keeps StaysSafe-Preorder _

    -- The loop's turn for x, where x is e or has another id.
    settle-Safe :
        (rest : Scenario (S × List Change) (Unit {0}))
        → Keeps StaysSafe rest
        → (r : Result ClientErr Bool) (d : Device (S × List Change))
        → ((e.id == x.id) ≡ false) ⊎ (r ≡ ok true → Accepted json e d.remote.1)
        → Safe d
        → Safe (settle x rest r d).1
    unfolding settle Done
    settle-Safe rest keeps (err why) d turn safe =
        (if-Keeps (is_offline why) _ _ (pure-Keeps StaysSafe-Preorder tt)
            (raise-Keeps StaysSafe-Preorder why)).at
          d safe
    settle-Safe rest keeps (ok false) d turn safe = keeps.at d safe
    settle-Safe rest keeps (ok true) d turn safe = elim turn [
      | inl other ↦
          (bind-Keeps StaysSafe-Preorder _ _ (removal-Safe x.id other) λ _. keeps).at d safe
      | inr accepted ↦
          bind-at StaysSafe-Preorder (run_local (Outbox.remove_outbox x.id)) _ d
            (λ _. inr ((removal-Done x.id).at d (accepted refl))) (λ _ _. keeps.at _) safe
    ]

  module _ (server : ServerClient S) (u : Option (Uploader S)) (token : String) where
    turn :
        (x : OutboxEntry)
        → OnlyOne e x
        → (r : Result ClientErr Bool) (d : Device (S × List Change))
        → (attempt (replay_entry (recorded server) (recorded_uploader u) json token x) d).0 ≡ ok r
        → ((e.id == x.id) ≡ false)
          ⊎ (r ≡ ok true
              → Accepted json e
                  (replay_entry (recorded server) (recorded_uploader u) json token x d).1.remote.1)
    unfolding attempt
    turn x one r d h = elim (Bool-cases (e.id == x.id)) [
      | inr other ↦ inl other
      | inl same ↦ inr λ done.
          subst
            (λ y.
              Accepted json y
                (replay_entry (recorded server) (recorded_uploader u) json token x d).1.remote.1)
            (one (flipped e.id x.id same))
            (replay_entry-Accepted server u json token x d (ok-injective h ∙ done))
    ]

    entries-Safe :
        (entries : List OutboxEntry)
        → All (OnlyOne e) entries
        → Keeps StaysSafe
            (replay_entries (recorded server) (recorded_uploader u) json token entries)
    unfolding replay_entries replay_entry attempt
    entries-Safe [] all = pure-Keeps StaysSafe-Preorder tt
    entries-Safe (x ∷ entries) all =
        let rest = entries-Safe entries all.1 in
        let tried = attempt-Keeps StaysSafe-Preorder _ (replay_op-Safe server token x u x.op) in
        if-Keeps (is_secret_entry x) _ _
          (record {
            at = λ d.
                bind-at StaysSafe-Preorder
                  (attempt (replay_entry (recorded server) (recorded_uploader u) json token x))
                  (settle x
                    (replay_entries (recorded server) (recorded_uploader u) json token entries))
                  d (tried.at d)
                  λ r h.
                    settle-Safe server token x
                      (replay_entries (recorded server) (recorded_uploader u) json token entries)
                      rest r
                      (attempt (replay_entry (recorded server) (recorded_uploader u) json token x)
                        d).1
                      (turn x all.0 r d h);
          })
          rest

  listed-Safe : Keeps StaysSafe (run_local Outbox.list_pending_outbox)
  unfolding Outbox.list_pending_outbox Outbox.list_outbox_by_status find_entry
  listed-Safe = statement-Safe Outbox.list_pending_outbox (λ l h. h)

  module _ (server : ServerClient S) (u : Option (Uploader S)) where
    pending-Safe :
        (token : String) (d : Device (S × List Change))
        → Keyed d.local.outbox
        → find_entry e.id d.local ≡ some e
        → StaysSafe d
            ((run_local Outbox.list_pending_outbox
                >>= replay_entries (recorded server) (recorded_uploader u) json token)
              d).1
    unfolding Outbox.list_pending_outbox Outbox.list_outbox_by_status find_entry
    pending-Safe token d keyed found =
        bind-at StaysSafe-Preorder (run_local Outbox.list_pending_outbox) _ d (listed-Safe.at d)
          λ entries h.
            (entries-Safe server u token entries (
                subst (All (OnlyOne e))
                  (ok-injective (run_local-ok Outbox.list_pending_outbox d entries h).0)
                  (All-select (OnlyOne e) (Outbox.has_status pending) d.local.outbox
                    (Keyed-OnlyOne e d.local.outbox keyed found)))).at
              _

    replay_with :
        (d : Device (S × List Change)) (t : Option String)
        → Keyed d.local.outbox
        → find_entry e.id d.local ≡ some e
        → Safe
            (replay_outbox (recorded server) (recorded_uploader u) json (record d { token = t })).1
    unfolding replay_outbox access_token
    replay_with d none keyed found = inl (inl found)
    replay_with d (some t) keyed found =
        pending-Safe t (record d { token = some t }) keyed found (inl (inl found))

    -- Whatever the server answers and whichever statements fail: an entry of a queue with unique ids is
    -- after a replay still in the queue, as it was or marked as a conflict, or else the server has
    -- accepted the change that the entry stands for.
    pub replay-loses_none :
        (d : Device (S × List Change))
        → Keyed d.local.outbox
        → find_entry e.id d.local ≡ some e
        → Waits e (replay_outbox (recorded server) (recorded_uploader u) json d).1.local
          ⊎ Accepted json e
              (replay_outbox (recorded server) (recorded_uploader u) json d).1.remote.1
    replay-loses_none d keyed found = replay_with d d.token keyed found
