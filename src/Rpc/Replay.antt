-- ===== src/Rpc/Replay.antt =====
-- outbox_replay.go of internal/client/usecase/sync on the gRPC client, before the server's handlers and its
-- database.
use mathlib.Core.List.{Memᴰ}
use yandex_go_final_diploma.Prelude.{
  ℕ, String, Option, none, some, List, [], ◌≡◌, ◌⊎◌, inl, inr, refl, sym, subst, arith,
}
use yandex_go_final_diploma.Exec.{Exec, Result, ok, err}
use yandex_go_final_diploma.Exec.Keeps.{Keeps, Preorder}
use yandex_go_final_diploma.Server.Domain.{Bytes}
use yandex_go_final_diploma.Server.External.{UuidLaws}
use yandex_go_final_diploma.Server.Store.{Db}
use yandex_go_final_diploma.Client.Errors.{ClientErr}
use yandex_go_final_diploma.Client.Local.{OutboxEntry}
use yandex_go_final_diploma.Client.Local.Outbox.{find_entry}
use yandex_go_final_diploma.Client.Local.Keys.{Keyed}
use yandex_go_final_diploma.Client.Device.{Device, Json}
use yandex_go_final_diploma.Client.Replay.{Uploader, replay_outbox}
use yandex_go_final_diploma.Client.Replay.Recorded.{
  Change, created, updated, deleted, uploaded, change_as, noted, noting, recorded,
  recorded_uploader,
}
use yandex_go_final_diploma.Client.Replay.Waits.{Waits}
use yandex_go_final_diploma.Client.Replay.Kept.{replay-loses_none}
use yandex_go_final_diploma.Client.Replay.Calls.{WritesKeep, replay_outbox-Keeps}
use yandex_go_final_diploma.Rpc.Handlers as Handlers
use yandex_go_final_diploma.Rpc.Network.{Remote}
use yandex_go_final_diploma.Rpc.GrpcClient.{
  Site, remote_client, create_secret, update_secret, delete_secret, reading,
}
use yandex_go_final_diploma.Rpc.GrpcClient.Past.{invoke-past}
use yandex_go_final_diploma.Rpc.GrpcClient.Evidence.{
  Evident, create_secret-Evident, update_secret-Evident, delete_secret-Evident,
}

-- The databases that were left are still there.
abbrev pub Remembers : Remote → Remote → Type 0
Remembers r r' = (d : Db) → Memᴰ d r.past → Memᴰ d r'.past

module _ (site : Site) where
  -- What was noted has been made.
  abbrev Truthful : Remote × List Change → Type 0
  Truthful w = (c : Change) → Memᴰ c w.1 → Evident site c w.0

  abbrev StaysTruthful : Remote × List Change → Remote × List Change → Type 0
  StaysTruthful w w' = Truthful w → Truthful w'

  StaysTruthful-Preorder : Preorder StaysTruthful
  StaysTruthful-Preorder = record { stays = λ w h. h; chain = λ a b c ab bc h. bc (ab h) }

  remembered : (c : Change) (r r' : Remote) → Remembers r r' → Evident site c r → Evident site c r'
  remembered (created _ _ _ _ _ _) r r' m (d, left, made) = (d, m d left, made)
  remembered (updated _ _ _ _ _) r r' m (d, left, made) = (d, m d left, made)
  remembered (deleted _ _) r r' m (d, left, made) = (d, m d left, made)
  remembered (uploaded _ _) r r' m e = tt

  noted-Truthful :
      {A : Type 0} (c : Change) (r r' : Remote) (o : Result ClientErr A) (log : List Change)
      → Remembers r r'
      → ((a : A) → o ≡ ok a → Evident site c r')
      → Truthful (r, log)
      → Truthful (r', noted c o log)
  noted-Truthful c r r' (err e) log m made h x at = remembered x r r' m (h x at)
  noted-Truthful c r r' (ok a) log m made h x (Memᴰ.head e) =
      subst (λ y. Evident site y r') (sym e) (made a refl)
  noted-Truthful c r r' (ok a) log m made h x (Memᴰ.tail at) = remembered x r r' m (h x at)

  noting-Truthful :
      {A : Type 0} (c : Change) (call : Exec Remote ClientErr A)
      → ((r : Remote) → Remembers r (call r).1)
      → ((r : Remote) (a : A) → (call r).0 ≡ ok a → Evident site c (call r).1)
      → Keeps StaysTruthful (noting c call)
  unfolding noting
  noting-Truthful c call m made = record {
    at = λ w. noted-Truthful c w.0 (call w.0).1 (call w.0).0 w.1 (m w.0) (made w.0);
  }

-- The uploads forget none of the databases that were left.
abbrev pub UploadsRemember : Option (Uploader Remote) → Type 0
UploadsRemember uploader =
    (u : Uploader Remote) (id vault_id : String)
    → uploader ≡ some u
    → (r : Remote) → Remembers r (u id vault_id r).1

module _ (site : Site) (uuids : UuidLaws site.external) where
  uploads-Truthful :
      (uploader : Option (Uploader Remote))
      → UploadsRemember uploader
      → (u : Uploader (Remote × List Change)) (id vault_id : String)
      → recorded_uploader uploader ≡ some u
      → Keeps (StaysTruthful site) (u id vault_id)
  unfolding recorded_uploader
  uploads-Truthful none remember u id vault_id h = ground (arith, h)
  uploads-Truthful (some up) remember u id vault_id h =
      let same : (λ i v. noting (uploaded i v) (up i v)) ≡ u = cc h in
      subst (λ (f : Uploader (Remote × List Change)). Keeps (StaysTruthful site) (f id vault_id))
        same
        (noting-Truthful site (uploaded id vault_id) (up id vault_id) (remember up id vault_id refl)
          λ r a e. tt)

  create_secret-Remembers :
      (t i v : String) (ty : ℕ) (row x p : Bytes) (r : Remote)
      → Remembers r (create_secret site t i v ty row x p r).1
  unfolding create_secret reading
  create_secret-Remembers t i v ty row x p r =
      invoke-past site _ t
        (Handlers.create_secret site.external site.statuses (record {
          secret_id = i;
          vault_id = v;
          type = ty;
          enc_row = row;
          enc_index = x;
          enc_payload = p;
        }))
        r

  update_secret-Remembers :
      (t i : String) (b : ℕ) (row x p : Bytes) (r : Remote)
      → Remembers r (update_secret site t i b row x p r).1
  unfolding update_secret reading
  update_secret-Remembers t i b row x p r =
      invoke-past site _ t
        (Handlers.update_secret site.external site.statuses (record {
          secret_id = i;
          base_version = b;
          enc_row = row;
          enc_index = x;
          enc_payload = p;
        }))
        r

  delete_secret-Remembers :
      (t i : String) (b : ℕ) (r : Remote) → Remembers r (delete_secret site t i b r).1
  unfolding delete_secret reading
  delete_secret-Remembers t i b r =
      invoke-past site _ t
        (Handlers.delete_secret site.external site.statuses
          (record { secret_id = i; base_version = b }))
        r

  calls-Truthful :
      (uploader : Option (Uploader Remote))
      → UploadsRemember uploader
      → WritesKeep (StaysTruthful site) (recorded (remote_client site)) (recorded_uploader uploader)
  unfolding recorded remote_client
  calls-Truthful uploader remember = record {
    creates = λ t i v ty row x p.
        noting-Truthful site (created i v ty row x p) (create_secret site t i v ty row x p)
          (create_secret-Remembers t i v ty row x p)
          (create_secret-Evident site uuids t i v ty row x p);
    updates = λ t i b row x p.
        noting-Truthful site (updated i b row x p) (update_secret site t i b row x p)
          (update_secret-Remembers t i b row x p) (update_secret-Evident site uuids t i b row x p);
    deletes = λ t i b.
        noting-Truthful site (deleted i b) (delete_secret site t i b)
          (delete_secret-Remembers t i b) (delete_secret-Evident site uuids t i b);
    uploads = uploads-Truthful uploader remember;
  }

  -- Whatever happens on the network, on the server, to its tokens and to the local statements, and
  -- whatever others change meanwhile: an entry of a queue with unique ids is after a replay still in the
  -- queue, as it was or marked as a conflict, or else it stands for a change that the server has made in
  -- its database: a call has left the new row with the ciphertexts of the entry, the row one version
  -- above the base with them, or the row deleted. Of the uploads of files nothing is said.
  pub replay-Reaches :
      (uploader : Option (Uploader Remote))
      → UploadsRemember uploader
      → (json : Json) (e : OutboxEntry) (d : Device (Remote × List Change)) → d.remote.1 ≡ []
      → Keyed d.local.outbox
      → find_entry e.id d.local ≡ some e
      → let d' =
          (replay_outbox (recorded (remote_client site)) (recorded_uploader uploader) json d).1 in
        Waits e d'.local
        ⊎ ((c : Change) × (change_as json e.payload e.op ≡ some c) × Evident site c d'.remote.0)
  replay-Reaches uploader remember json e d fresh keyed found =
      elim (replay-loses_none json e (remote_client site) uploader d keyed found) [
        | inl w ↦ inl w
        | inr a ↦ inr (
          a.change,
          a.stands_for,
          (replay_outbox-Keeps (StaysTruthful-Preorder site) (recorded (remote_client site))
                (recorded_uploader uploader) json (calls-Truthful uploader remember)).at
              d (λ c m. elim (subst (Memᴰ c) fresh m) [ ]) a.change a.is_noted,
        )
      ]
