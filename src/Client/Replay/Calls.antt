-- ===== src/Client/Replay/Calls.antt =====
-- internal/client/usecase/sync/outbox_replay.go: the calls of the server that a replay is made of.
use yandex_go_final_diploma.Prelude.{
  ℕ, String, Bool, true, false, Option, none, some, List, [], ◌∷◌, ◌≡◌, refl,
}
use yandex_go_final_diploma.Exec.{Exec, Result, ok, err, ◌>>=◌}
use yandex_go_final_diploma.Exec.Keeps.{
  Keeps, Preorder, pure-Keeps, raise-Keeps, bind-Keeps, if-Keeps,
}
use yandex_go_final_diploma.Server.Domain.{Bytes}
use yandex_go_final_diploma.Client.Errors.{ClientErr, is_offline}
use yandex_go_final_diploma.Client.Local.{
  OutboxEntry, OutboxOp, create, delete, blob_upload, unknown,
}
use yandex_go_final_diploma.Client.Sync.{is_secret_entry}
use yandex_go_final_diploma.Client.Device.{ServerClient, Scenario, Json, run_remote}
use yandex_go_final_diploma.Client.Device.Keeps.{
  OnRemote, OnRemote-Preorder, run_local-OnRemote, run_remote-OnRemote, access_token-OnRemote,
}
use yandex_go_final_diploma.Client.Replay.{
  Uploader, decode, attempt, handled, upload_by, replay_create, replay_update, replay_delete,
  replay_blob_upload, replay_op, replay_entry, settle, replay_entries, replay_outbox,
}
use yandex_go_final_diploma.Client.Replay.Parts.{
  decoded-Keeps, attempt-Keeps, conflict-Keeps, upload_failed-Keeps, handled-Keeps, then_true,
}

-- The calls that write, and the uploads, keep a relation.
pub record WritesKeep {S : Type 0} (Q : S → S → Type 0) (server : ServerClient S)
    (uploader : Option (Uploader S)) : Type 0 where
  pub creates :
      (t i v : String) (ty : ℕ) (r x p : Bytes) → Keeps Q (server.create_secret t i v ty r x p)
  pub updates : (t i : String) (b : ℕ) (r x p : Bytes) → Keeps Q (server.update_secret t i b r x p)
  pub deletes : (t i : String) (b : ℕ) → Keeps Q (server.delete_secret t i b)
  pub uploads : (u : Uploader S) (i v : String) → uploader ≡ some u → Keeps Q (u i v)

module _ {S : Type 0} {Q : S → S → Type 0} (p : Preorder Q) where
  -- A call whose answer is handled.
  answered_call :
      {A : Type 0} (call : Exec S ClientErr A) (handle : ClientErr → Scenario S Bool)
      (rest : Scenario S Bool)
      → Keeps Q call
      → ((why : ClientErr) → Keeps (OnRemote Q) (handle why))
      → Keeps (OnRemote Q) rest
      → Keeps (OnRemote Q) (attempt (run_remote call) >>= handled handle rest)
  unfolding attempt
  answered_call call handle rest keeps hs rs =
      bind-Keeps (OnRemote-Preorder p) (attempt (run_remote call)) (handled handle rest)
        (attempt-Keeps (OnRemote-Preorder p) _ (run_remote-OnRemote p call keeps))
        (handled-Keeps (OnRemote-Preorder p) handle rest hs rs)

  settle-Keeps :
      (e : OutboxEntry) (rest : Scenario S (Unit {0}))
      → Keeps (OnRemote Q) rest
      → (r : Result ClientErr Bool) → Keeps (OnRemote Q) (settle e rest r)
  unfolding settle
  settle-Keeps e rest keeps (err why) =
      if-Keeps (is_offline why) _ _ (pure-Keeps (OnRemote-Preorder p) tt)
        (raise-Keeps (OnRemote-Preorder p) why)
  settle-Keeps e rest keeps (ok false) = keeps
  settle-Keeps e rest keeps (ok true) =
      bind-Keeps (OnRemote-Preorder p) _ _ (run_local-OnRemote p _) λ _. keeps

  module _ (server : ServerClient S) (json : Json) (token : String) where
    upload_by-Keeps :
        (u : Option (Uploader S)) (e : OutboxEntry)
        → WritesKeep Q server u
        → Keeps (OnRemote Q) (upload_by json u e)
    unfolding upload_by decode
    upload_by-Keeps none e w = raise-Keeps (OnRemote-Preorder p) _
    upload_by-Keeps (some u) e w =
        bind-Keeps (OnRemote-Preorder p) _ _ (decoded-Keeps (OnRemote-Preorder p) _) λ b.
          answered_call _ _ _ (w.uploads u b.secret_id b.vault_id refl)
            (upload_failed-Keeps (OnRemote-Preorder p)) (pure-Keeps (OnRemote-Preorder p) true)

    replay_op-Keeps :
        (u : Option (Uploader S)) (e : OutboxEntry) (op : OutboxOp)
        → WritesKeep Q server u
        → Keeps (OnRemote Q) (replay_op server u json token e op)
    unfolding replay_op replay_create replay_update replay_delete replay_blob_upload decode
    replay_op-Keeps u e create w =
        bind-Keeps (OnRemote-Preorder p) _ _ (decoded-Keeps (OnRemote-Preorder p) _) λ b.
          bind-Keeps (OnRemote-Preorder p) _ _
            (run_remote-OnRemote p _
              (w.creates token b.secret_id b.vault_id b.type b.enc_row b.enc_index b.enc_payload))
            λ _. then_true (OnRemote-Preorder p) _ (run_local-OnRemote p _)
    replay_op-Keeps u e OutboxOp.update w =
        bind-Keeps (OnRemote-Preorder p) _ _ (decoded-Keeps (OnRemote-Preorder p) _) λ b.
          answered_call _ _ _
            (w.updates token b.secret_id b.base_version b.enc_row b.enc_index b.enc_payload)
            (conflict-Keeps (OnRemote-Preorder p) e (run_local-OnRemote p _))
            (then_true (OnRemote-Preorder p) _ (run_local-OnRemote p _))
    replay_op-Keeps u e delete w =
        bind-Keeps (OnRemote-Preorder p) _ _ (decoded-Keeps (OnRemote-Preorder p) _) λ b.
          answered_call _ _ _ (w.deletes token b.secret_id b.base_version)
            (conflict-Keeps (OnRemote-Preorder p) e (run_local-OnRemote p _))
            (then_true (OnRemote-Preorder p) _ (run_local-OnRemote p _))
    replay_op-Keeps u e blob_upload w = upload_by-Keeps u e w
    replay_op-Keeps u e unknown w = raise-Keeps (OnRemote-Preorder p) _

    replay_entries-Keeps :
        (u : Option (Uploader S)) (entries : List OutboxEntry)
        → WritesKeep Q server u
        → Keeps (OnRemote Q) (replay_entries server u json token entries)
    unfolding replay_entries replay_entry attempt
    replay_entries-Keeps u [] w = pure-Keeps (OnRemote-Preorder p) tt
    replay_entries-Keeps u (e ∷ entries) w =
        let rest = replay_entries-Keeps u entries w in
        if-Keeps (is_secret_entry e) _ _
          (bind-Keeps (OnRemote-Preorder p) (attempt (replay_entry server u json token e)) _
            (attempt-Keeps (OnRemote-Preorder p) _ (replay_op-Keeps u e e.op w))
            (settle-Keeps e _ rest))
          rest

  -- A relation that the calls keep, a replay keeps.
  pub replay_outbox-Keeps :
      (server : ServerClient S) (u : Option (Uploader S)) (json : Json)
      → WritesKeep Q server u
      → Keeps (OnRemote Q) (replay_outbox server u json)
  unfolding replay_outbox
  replay_outbox-Keeps server u json w =
      bind-Keeps (OnRemote-Preorder p) _ _ (access_token-OnRemote p) λ token.
        bind-Keeps (OnRemote-Preorder p) _ _ (run_local-OnRemote p _)
          λ entries. replay_entries-Keeps server json token u entries w
