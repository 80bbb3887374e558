-- ===== src/Client/Secrets/Answers.antt =====
-- What the answer of the server to a change of a secret leads to.
use mathlib.Core.List.{Memᴰ}
use yandex_go_final_diploma.Prelude.{
  ℕ, String, Bool, true, false, Option, none, some, List, [], ◌∷◌, ◌++◌, ◌≡◌, ◌≢◌, ◌⊎◌, inl, inr,
  refl, sym, subst, arith, if◌then◌else◌,
}
use yandex_go_final_diploma.Exec.{Exec, Result, ok, err, pure, raise, ◌>>=◌}
use yandex_go_final_diploma.Exec.Keeps.{Keeps}
use yandex_go_final_diploma.Exec.Returns.{bind-ends}
use yandex_go_final_diploma.Client.Errors.{
  ClientErr, ServerSecret, conflict, should_fallback_offline,
}
use yandex_go_final_diploma.Client.Local.{Local, OutboxEntry, pending}
use yandex_go_final_diploma.Client.Local.Secrets as Secrets
use yandex_go_final_diploma.Client.Local.Outbox as Outbox
use yandex_go_final_diploma.Client.Device.{Device, Scenario, Json, Codec, run_local, run_remote}
use yandex_go_final_diploma.Client.Device.Keeps.{statement-Keeps}
use yandex_go_final_diploma.Client.Device.Returns.{run_local-ok}
use yandex_go_final_diploma.Client.Replay.{attempt}
use yandex_go_final_diploma.Client.Replay.Recorded.{Change, change_as, recorded, noting}
use yandex_go_final_diploma.Client.Replay.Answers.{SameLog, noted_call}
use yandex_go_final_diploma.Client.Secrets.{Env}
use yandex_go_final_diploma.Client.Secrets.Scenarios.{
  Conflict, fallen_back, refused_with, changed_with,
}

-- The body reads back as it was written.
abbrev pub ReadsBack : {A : Type 0} → Codec A → A → Type 0
ReadsBack codec p = codec.get (codec.put p) ≡ some p

-- The same scenarios, with the server behind the recorder.
abbrev pub recording : {S : Type 0} → Env S → Env (S × List Change)
recording env = record {
  server = recorded env.server;
  aead = env.aead;
  json = env.json;
  vault_keys = env.vault_keys;
  decimal = env.decimal;
  utf8 = env.utf8;
}

-- The queue has a pending entry that stands for the change.
pub record InQueue (json : Json) (change : Change) (l : Local) : Type 0 where
  pub entry : OutboxEntry
  pub there : Memᴰ entry l.outbox
  pub is_pending : entry.status ≡ pending
  pub stands_for : change_as json entry.payload entry.op ≡ some change

-- The server has accepted the change, or it waits in the queue.
abbrev pub Durable : {S : Type 0} → Json → Change → Device (S × List Change) → Type 0
Durable json change d = Memᴰ change d.remote.1 ⊎ InQueue json change d.local

last_in : {A : Type 0} (xs : List A) (x : A) → Memᴰ x (xs ++ x ∷ [])
last_in [] x = Memᴰ.head refl
last_in (y ∷ xs) x = Memᴰ.tail (last_in xs x)

module _ {S : Type 0} (json : Json) (change : Change) where
  abbrev pub Queued : Device S → Type 0
  Queued d = InQueue json change d.local

  pub enqueue-InQueue :
      (e : OutboxEntry) (d : Device S) (n : ℕ)
      → e.status ≡ pending
      → change_as json e.payload e.op ≡ some change
      → (run_local (Outbox.enqueue_outbox e) d).0 ≡ ok n
      → Queued (run_local (Outbox.enqueue_outbox e) d).1
  unfolding Outbox.enqueue_outbox
  enqueue-InQueue e d n waits stands h =
      subst (InQueue json change) (sym (run_local-ok (Outbox.enqueue_outbox e) d n h).1) (record {
        entry = record e { id = d.local.next_id };
        there = last_in d.local.outbox (record e { id = d.local.next_id });
        is_pending = waits;
        stands_for = stands;
      })

  unfoldable pub StaysQueued : Device S → Device S → Type 0
  StaysQueued d d' = InQueue json change d.local → InQueue json change d'.local

  pub delete_secret-Queued :
      (id : String) → Keeps StaysQueued (run_local (Secrets.delete_secret id))
  unfolding StaysQueued Secrets.delete_secret
  delete_secret-Queued id =
      statement-Keeps StaysQueued (Secrets.delete_secret id) (λ d faults h. h)
        λ d faults h. record {
          entry = h.entry;
          there = h.there;
          is_pending = h.is_pending;
          stands_for = h.stands_for;
        }

module _ {S : Type 0} (json : Json) (change : Change) where
  fallen_back-Durable :
      (falls : Bool) (offline : Scenario (S × List Change) (Unit {0})) (e : ClientErr)
      (d : Device (S × List Change))
      → ((d : Device (S × List Change))
          → (offline d).0 ≡ ok tt
          → InQueue json change (offline d).1.local)
      → (fallen_back falls offline e d).0 ≡ ok none
      → Durable json change (fallen_back falls offline e d).1
  fallen_back-Durable true offline e d queues h =
      bind-ends (Durable json change) offline (λ _. pure none) d none h λ a ha _. inr (queues d ha)
  fallen_back-Durable false offline e d queues h = ground (arith, h)

  pub or_raised :
      (falls : Bool) (offline : Scenario (S × List Change) String) (e : ClientErr)
      (d : Device (S × List Change)) (id : String)
      → ((offline d).0 ≡ ok id → InQueue json change (offline d).1.local)
      → ((if falls then offline else raise e) d).0 ≡ ok id
      → Durable json change ((if falls then offline else raise e) d).1
  or_raised true offline e d id queues h = inr (queues h)
  or_raised false offline e d id queues h = ground (arith, h)

  -- Without an answer that the server accepted, the code behind it has queued the change.
  refused-Durable :
      (shown : ServerSecret → Scenario (S × List Change) (Option Conflict))
      (offline : Scenario (S × List Change) (Unit {0}))
      → ((s : ServerSecret) (d : Device (S × List Change)) → (shown s d).0 ≢ ok none)
      → ((d : Device (S × List Change))
          → (offline d).0 ≡ ok tt
          → InQueue json change (offline d).1.local)
      → (e : ClientErr) (d : Device (S × List Change))
      → (refused_with shown offline e d).0 ≡ ok none
      → Durable json change (refused_with shown offline e d).1
  unfolding refused_with
  refused-Durable shown offline never queues (conflict s) d h = elim (never s d h) [ ]
  refused-Durable shown offline never queues e d h =
      fallen_back-Durable (should_fallback_offline e) offline e d queues h

  module _ {A : Type 0} (shown : ServerSecret → Scenario (S × List Change) (Option Conflict))
      (offline cached : Scenario (S × List Change) (Unit {0}))
      (never : (s : ServerSecret) (d : Device (S × List Change)) → (shown s d).0 ≢ ok none)
      (queues : (d : Device (S × List Change))
        → (offline d).0 ≡ ok tt
        → InQueue json change (offline d).1.local)
      (keeps : Keeps SameLog cached) where
    answered-Durable :
        (r : Result ClientErr A) (d : Device (S × List Change))
        → ((a : A) → r ≡ ok a → Memᴰ change d.remote.1)
        → (changed_with shown offline cached r d).0 ≡ ok none
        → Durable json change (changed_with shown offline cached r d).1
    unfolding changed_with
    answered-Durable (ok a) d logged h =
        bind-ends (Durable json change) cached (λ _. pure none) d none h
          λ _ _ _. inl (keeps.at d change (logged a refl))
    answered-Durable (err e) d logged h = refused-Durable shown offline never queues e d h

    pub changed-Durable :
        (call : Exec S ClientErr A) (d : Device (S × List Change))
        → ((attempt (run_remote (noting change call)) >>= changed_with shown offline cached) d).0
          ≡ ok none
        → Durable json change
            ((attempt (run_remote (noting change call)) >>= changed_with shown offline cached) d).1
    unfolding attempt
    changed-Durable call d h =
        answered-Durable (run_remote (noting change call) d).0 (run_remote (noting change call) d).1
          (λ a ha. noted_call change call d a ha) h
