-- ===== src/Client/Replay/Answers.antt =====
-- An entry of the queue that was replayed to its end has been accepted by the server.
use mathlib.Core.List.{Memᴰ}
use mathlib.Core.Option
use yandex_go_final_diploma.Prelude.{
  String, Bool, true, Option, none, some, List, ◌≡◌, ◌≢◌, refl, sym, ap, subst, arith,
}
use yandex_go_final_diploma.Exec.{Exec, Result, ok, err, pure, ◌>>=◌, ◌>>◌}
use yandex_go_final_diploma.Exec.Keeps.{Keeps, Preorder}
use yandex_go_final_diploma.Exec.Returns.{bind-ends, bind-ok, ok-injective}
use yandex_go_final_diploma.Client.Errors.{ClientErr, conflict}
use yandex_go_final_diploma.Client.Local.{
  Statement, OutboxEntry, OutboxOp, create, update, delete, blob_upload, unknown, conflicted,
}
use yandex_go_final_diploma.Client.Local.Outbox as Outbox
use yandex_go_final_diploma.Client.Device.{
  Device, ServerClient, Scenario, Codec, Json, run_local, run_remote,
}
use yandex_go_final_diploma.Client.Device.Keeps.{statement-Keeps}
use yandex_go_final_diploma.Client.Replay.{
  Uploader, decoded, decode, attempt, handled, handle_replay_conflict, upload_failed, upload_by,
  replay_create, replay_update, replay_delete, replay_blob_upload, replay_op, replay_entry,
}
use yandex_go_final_diploma.Client.Replay.Recorded.{
  Change, created, updated, deleted, uploaded, change_as, recorded, recorded_uploader, noting,
  Accepted, noting-has,
}
use yandex_go_final_diploma.Client.Replay.Parts.{then_true}

module _ {S : Type 0} where
  -- What was noted on one device is noted on the other.
  abbrev pub SameLog : Device (S × List Change) → Device (S × List Change) → Type 0
  SameLog d d' = (c : Change) → Memᴰ c d.remote.1 → Memᴰ c d'.remote.1

  pub statement-SameLog : {A : Type 0} (st : Statement A) → Keeps SameLog (run_local st)
  statement-SameLog st = statement-Keeps SameLog st (λ d faults c h. h) (λ d faults c h. h)

  pub SameLog-Preorder : Preorder SameLog
  SameLog-Preorder = record { stays = λ d c h. h; chain = λ a b d ab bd c h. bd c (ab c h) }

  decode-gives :
      {A : Type 0} (o : Option A) (d : Device S) (p : A) → (decoded o d).0 ≡ ok p → o ≡ some p
  unfolding decoded
  decode-gives none d p h = ground (arith, h)
  decode-gives (some q) d p h = ap some (ok-injective h)

  conflict-stays :
      (e : OutboxEntry) (x : ClientErr) (d : Device S) → (handle_replay_conflict e x d).0 ≢ ok true
  unfolding handle_replay_conflict
  conflict-stays e (conflict s) d h =
      let r = bind-ok (run_local (Outbox.set_outbox_status e.id conflicted)) _ d true h in
      ground (arith, r.second)
  conflict-stays e x d h = ground (arith, h)

  upload-stays : (x : ClientErr) (d : Device S) → (upload_failed x d).0 ≢ ok true
  unfolding upload_failed
  upload-stays x d h = ground arith

  -- An answer handled to `true` was a value, if the handler never comes to `true`.
  handled-value :
      {A : Type 0} (Q : Device S → Type 0) (handle : ClientErr → Scenario S Bool)
      (rest : Scenario S Bool)
      → ((x : ClientErr) (d : Device S) → (handle x d).0 ≢ ok true)
      → (r : Result ClientErr A) (d : Device S) → (handled handle rest r d).0 ≡ ok true
      → ((a : A) → r ≡ ok a → Q (rest d).1)
      → Q (handled handle rest r d).1
  unfolding handled
  handled-value Q handle rest never (ok a) d h next = next a refl
  handled-value Q handle rest never (err x) d h next = elim (never x d h) [ ]

-- A call that was noted, and then a change of the local tables.
module _ {S : Type 0} (c : Change) where
  Has : Device (S × List Change) → Type 0
  Has d = Memᴰ c d.remote.1

  pub noted_call :
      {A : Type 0} (call : Exec S ClientErr A) (d : Device (S × List Change)) (a : A)
      → (run_remote (noting c call) d).0 ≡ ok a
      → Memᴰ c (run_remote (noting c call) d).1.remote.1
  unfolding run_remote
  noted_call call d a h = noting-has c call d.remote a h

  then_local :
      {A : Type 0} (call : Exec S ClientErr A) (st : Statement (Unit {0}))
      (d : Device (S × List Change))
      → ((run_remote (noting c call) >> (run_local st >> pure true)) d).0 ≡ ok true
      → Memᴰ c ((run_remote (noting c call) >> (run_local st >> pure true)) d).1.remote.1
  unfolding Has
  then_local call st d h = bind-ends Has (run_remote (noting c call)) _ d true h λ a ha rest.
      bind-ends Has (run_local st) _ _ true rest
        λ _ _ _. (statement-SameLog st).at _ c (noted_call call d a ha)

  handled_call :
      {A : Type 0} (call : Exec S ClientErr A)
      (handle : ClientErr → Scenario (S × List Change) Bool)
      → ((x : ClientErr) (d : Device (S × List Change)) → (handle x d).0 ≢ ok true)
      → (rest : Scenario (S × List Change) Bool) → Keeps SameLog rest
      → (d : Device (S × List Change))
      → ((attempt (run_remote (noting c call)) >>= handled handle rest) d).0 ≡ ok true
      → Memᴰ c ((attempt (run_remote (noting c call)) >>= handled handle rest) d).1.remote.1
  unfolding Has attempt
  handled_call call handle never rest keeps d h =
      handled-value Has handle rest never (run_remote (noting c call) d).0
        (run_remote (noting c call) d).1 h λ a ha. keeps.at _ c (noted_call call d a ha)

-- A body that decodes, and then a call whose change is that of the body.
decoded-accepted :
    {S A : Type 0} (codec : Codec A) (e : OutboxEntry) (change : A → Change)
    (k : A → Scenario (S × List Change) Bool)
    → ((p : A) (d : Device (S × List Change))
        → (k p d).0 ≡ ok true
        → Memᴰ (change p) (k p d).1.remote.1)
    → (d : Device (S × List Change)) → ((decode codec e >>= k) d).0 ≡ ok true
    → (c : Change) × ((Option.map change (codec.get e.payload) ≡ some c)
        × Memᴰ c ((decode codec e >>= k) d).1.remote.1)
unfolding decode Has
decoded-accepted codec e change k has d h =
    let r = bind-ok (decode codec e) k d true h in
    (
      change r.value,
      (
        ap (Option.map change) (decode-gives (codec.get e.payload) d r.value r.first),
        subst (Has (change r.value)) (sym r.state) (has r.value _ r.second),
      ),
    )

module _ {S : Type 0} (server : ServerClient S) (uploader : Option (Uploader S)) (json : Json)
    (token : String) (e : OutboxEntry) where
  -- What the entry stands for under an operation was noted.
  abbrev NotedAs : OutboxOp → Device (S × List Change) → Type 0
  NotedAs op d = (c : Change) × ((change_as json e.payload op ≡ some c) × Memᴰ c d.remote.1)

  upload-accepted :
      (u : Option (Uploader S)) (d : Device (S × List Change))
      → (upload_by json (recorded_uploader u) e d).0 ≡ ok true
      → NotedAs blob_upload (upload_by json (recorded_uploader u) e d).1
  unfolding upload_by recorded_uploader change_as
  upload-accepted none d h = ground (arith, h)
  upload-accepted (some upload) d h =
      decoded-accepted json.uploads e (λ p. uploaded p.secret_id p.vault_id) _
        (λ p d1.
          handled_call _ (upload p.secret_id p.vault_id) upload_failed upload-stays (pure true)
            (record { at = λ _ c m. m }) d1)
        d h

  op-accepted :
      (op : OutboxOp) (d : Device (S × List Change))
      → (replay_op (recorded server) (recorded_uploader uploader) json token e op d).0 ≡ ok true
      → NotedAs op (replay_op (recorded server) (recorded_uploader uploader) json token e op d).1
  unfolding replay_op replay_create replay_update replay_delete replay_blob_upload recorded
      change_as
  op-accepted create d h =
      decoded-accepted json.creates e
        (λ p. created p.secret_id p.vault_id p.type p.enc_row p.enc_index p.enc_payload) _
        (λ p d1. then_local _ _ _ d1) d h
  op-accepted update d h =
      decoded-accepted json.updates e
        (λ p. updated p.secret_id p.base_version p.enc_row p.enc_index p.enc_payload) _
        (λ p d1.
          handled_call _ _ (handle_replay_conflict e) (conflict-stays e) _
            (then_true SameLog-Preorder _ (statement-SameLog _)) d1)
        d h
  op-accepted delete d h =
      decoded-accepted json.deletes e (λ p. deleted p.secret_id p.base_version) _
        (λ p d1.
          handled_call _ _ (handle_replay_conflict e) (conflict-stays e) _
            (then_true SameLog-Preorder _ (statement-SameLog _)) d1)
        d h
  op-accepted blob_upload d h = upload-accepted uploader d h
  op-accepted unknown d h = ground (arith, h)

  pub replay_entry-Accepted :
      (d : Device (S × List Change))
      → (replay_entry (recorded server) (recorded_uploader uploader) json token e d).0 ≡ ok true
      → Accepted json e
          (replay_entry (recorded server) (recorded_uploader uploader) json token e d).1.remote.1
  unfolding replay_entry
  replay_entry-Accepted d h =
      let (c, (stands, noted)) = op-accepted e.op d h in
      record { change = c; stands_for = stands; is_noted = noted }
