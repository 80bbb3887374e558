-- ===== src/Client/Secrets/Durable.antt =====
-- A change of a secret that was reported as done is with the server or in the queue.
use mathlib.Core.List.{Memᴰ}
use mathlib.Core.Option
use yandex_go_final_diploma.Prelude.{
  ℕ, String, Bool, true, false, none, List, ◌≡◌, ◌≢◌, inl, refl, ap, arith, str_eq,
}
use yandex_go_final_diploma.Exec.{Result, ok, err, pure, refuse_if}
use yandex_go_final_diploma.Exec.Keeps.{Keeps, pure-Keeps, bind-Keeps, if-Keeps}
use yandex_go_final_diploma.Exec.Returns.{bind-ok, bind-ends}
use yandex_go_final_diploma.Client.Errors.{
  ClientErr, ServerSecret, empty_secret_id, should_fallback_offline,
}
use yandex_go_final_diploma.Client.Local.Outbox as Outbox
use yandex_go_final_diploma.Client.Device.{Device, run_local, next_version}
use yandex_go_final_diploma.Client.Replay.{attempt, is_present}
use yandex_go_final_diploma.Client.Replay.Recorded.{
  Change, created, updated, deleted, change_as, recorded,
}
use yandex_go_final_diploma.Client.Replay.Answers.{
  SameLog, SameLog-Preorder, statement-SameLog, noted_call,
}
use yandex_go_final_diploma.Client.Secrets.{
  Env, Tiers, Sealed, Draws, create_version, vault_context, encrypt_tiers, decrypt_tiers,
  cache_created, cache_full_secret,
}
use yandex_go_final_diploma.Client.Secrets.Scenarios.{
  Retry, server_sealed, outbox_create, outbox_update, outbox_delete, build_conflict, create_offline,
  update_offline, delete_offline, created_with, create_typed, update_typed, delete_secret,
}
use yandex_go_final_diploma.Client.Secrets.Answers.{
  ReadsBack, recording, InQueue, Durable, Queued, StaysQueued, enqueue-InQueue,
  delete_secret-Queued, or_raised, changed-Durable,
}
use yandex_go_final_diploma.Client.Secrets.Sealing.{
  SealedFrom, vault_context-key, encrypt_tiers-SealedFrom, unrecorded-SealedFrom,
}

module _ {S : Type 0} (env : Env S) where
  upsert_and_set :
      (id vault_id : String) (type : ℕ) (s : Sealed) (version : ℕ) (dirty : Bool)
      → Keeps SameLog (cache_full_secret (recording env) id vault_id type s version dirty)
  unfolding cache_full_secret
  upsert_and_set id vault_id type s version dirty =
      bind-Keeps SameLog-Preorder _ _ (statement-SameLog _) λ _.
        bind-Keeps SameLog-Preorder _ _
          (if-Keeps (is_present s.enc_index) _ _ (statement-SameLog _)
            (pure-Keeps SameLog-Preorder tt))
          λ _.
            if-Keeps (is_present s.enc_payload) _ _ (statement-SameLog _)
              (pure-Keeps SameLog-Preorder tt)

  conflict_shown :
      (key : List ℕ) (vault_id secret_id : String) (is_delete : Bool) (retry : Retry)
      (s : ServerSecret) (d : Device (S × List Change))
      → (build_conflict (recording env) key vault_id secret_id is_delete retry s d).0 ≢ ok none
  unfolding build_conflict
  conflict_shown key vault_id secret_id is_delete retry s d h = ground (
    arith,
    (bind-ok (decrypt_tiers (recording env) key vault_id secret_id s.version (server_sealed s)) _ d
        none h).second,
  )

  update_offline-InQueue :
      (secret_id vault_id : String) (type base_version : ℕ) (s : Sealed)
      → ReadsBack env.json.updates (outbox_update secret_id vault_id type base_version s)
      → (d : Device (S × List Change))
      → (update_offline (recording env) secret_id vault_id type base_version s d).0 ≡ ok tt
      → InQueue env.json
          (updated secret_id base_version s.enc_row s.enc_index s.enc_payload)
          (update_offline (recording env) secret_id vault_id type base_version s d).1.local
  unfolding update_offline change_as
  update_offline-InQueue secret_id vault_id type base_version s back d h =
      bind-ends (Queued env.json _)
        (cache_full_secret (recording env) secret_id vault_id type s _ true) _ d tt h
        λ _ _ h1.
          bind-ends (Queued env.json _) (run_local (Outbox.enqueue_outbox _)) (λ _. pure tt) _ tt h1
            λ n hn _. enqueue-InQueue env.json _ _ _ n refl (ap (Option.map _) back) hn

  -- Whatever the server answers and whichever statements fail, if the bodies in the queue read back: an
  -- edit that was reported as done, with no conflict to show, was accepted by the server or waits in the
  -- queue, with the ciphertexts of the new tiers under the key of the vault and the next version.
  pub update-Durable :
      (draws : Draws) (vault_id secret_id : String) (base_version type : ℕ) (t : Tiers)
      → ((s : Sealed)
          → ReadsBack env.json.updates (outbox_update secret_id vault_id type base_version s))
      → (d : Device (S × List Change))
      → (update_typed (recording env) draws vault_id secret_id base_version type t d).0 ≡ ok none
      → (s : Sealed) × SealedFrom env draws vault_id secret_id (next_version base_version) t s
        × Durable env.json
            (updated secret_id base_version s.enc_row s.enc_index s.enc_payload)
            (update_typed (recording env) draws vault_id secret_id base_version type t d).1
  unfolding update_typed recorded
  update-Durable draws vault_id secret_id base_version type t back d h =
      let Q : Device (S × List Change) → Type 0 = λ d'.
        (s : Sealed) × SealedFrom env draws vault_id secret_id (next_version base_version) t s
        × Durable env.json (updated secret_id base_version s.enc_row s.enc_index s.enc_payload)
            d' in
      bind-ends Q (vault_context (recording env) vault_id) _ d none h λ context hc h1.
        bind-ends Q (encrypt_tiers (recording env) draws context.0 vault_id secret_id _ t) _ _ none
          h1
          λ s hs h2. (
            s,
            unrecorded-SealedFrom env draws vault_id secret_id _ t s (
                encrypt_tiers-SealedFrom (recording env) draws vault_id secret_id _ t context.0 _ s
                  (vault_context-key (recording env) vault_id _ context hc) hs),
            changed-Durable env.json _ _ _ _ (conflict_shown context.0 vault_id secret_id false _)
                (update_offline-InQueue secret_id vault_id type base_version s (back s))
                (upsert_and_set secret_id vault_id type s _ false) _ _ h2,
          )

  delete_offline-InQueue :
      (secret_id vault_id : String) (base_version : ℕ)
      → ReadsBack env.json.deletes (outbox_delete secret_id vault_id base_version)
      → (d : Device (S × List Change))
      → (delete_offline (recording env) secret_id vault_id base_version d).0 ≡ ok tt
      → InQueue env.json
          (deleted secret_id base_version)
          (delete_offline (recording env) secret_id vault_id base_version d).1.local
  unfolding delete_offline change_as StaysQueued
  delete_offline-InQueue secret_id vault_id base_version back d h =
      bind-ends (Queued env.json _) (run_local (Outbox.enqueue_outbox _)) _ d tt h λ n hn _.
        (delete_secret-Queued env.json _ secret_id).at _
          (enqueue-InQueue env.json _ _ d n refl (ap (Option.map _) back) hn)

  -- Whatever the server answers and whichever statements fail, if the bodies in the queue read back: a
  -- deletion that was reported as done, with no conflict to show, was accepted by the server or waits in
  -- the queue.
  pub delete-Durable :
      (vault_id secret_id : String) (base_version : ℕ)
      → ReadsBack env.json.deletes (outbox_delete secret_id vault_id base_version)
      → (d : Device (S × List Change))
      → (delete_secret (recording env) vault_id secret_id base_version d).0 ≡ ok none
      → Durable env.json
          (deleted secret_id base_version)
          (delete_secret (recording env) vault_id secret_id base_version d).1
  unfolding delete_secret recorded
  delete-Durable vault_id secret_id base_version back d h =
      bind-ends (Durable env.json _) (refuse_if (str_eq secret_id "") empty_secret_id) _ d none h
        λ _ _ h0.
          bind-ends (Durable env.json _) (vault_context (recording env) vault_id) _ _ none h0
            λ context _ h1.
              changed-Durable env.json _ _ _ _ (conflict_shown context.0 vault_id secret_id true _)
                (delete_offline-InQueue secret_id vault_id base_version back) (statement-SameLog _)
                _ _ h1

  -- The row and the entry of a secret that was made without the server.
  create_offline-InQueue :
      (secret_id vault_id : String) (type : ℕ) (s : Sealed)
      → ReadsBack env.json.creates (outbox_create secret_id vault_id type s)
      → (d : Device (S × List Change)) (id : String)
      → (create_offline (recording env) secret_id vault_id type s d).0 ≡ ok id
      → InQueue env.json
          (created secret_id vault_id type s.enc_row s.enc_index s.enc_payload)
          (create_offline (recording env) secret_id vault_id type s d).1.local
  unfolding create_offline change_as
  create_offline-InQueue secret_id vault_id type s back d id h =
      bind-ends (Queued env.json _) (cache_created (recording env) secret_id vault_id type s true) _
        d id h
        λ _ _ h1.
          bind-ends (Queued env.json _) (run_local (Outbox.enqueue_outbox _)) (λ _. pure secret_id)
            _ id h1 λ n hn _. enqueue-InQueue env.json _ _ _ n refl (ap (Option.map _) back) hn

  created_with-Durable :
      (secret_id vault_id : String) (type : ℕ) (s : Sealed)
      → ReadsBack env.json.creates (outbox_create secret_id vault_id type s)
      → (r : Result ClientErr (Unit {0})) (d : Device (S × List Change)) (id : String)
      → (r ≡ ok tt
          → Memᴰ (created secret_id vault_id type s.enc_row s.enc_index s.enc_payload) d.remote.1)
      → (created_with (recording env) secret_id vault_id type s r d).0 ≡ ok id
      → Durable env.json
          (created secret_id vault_id type s.enc_row s.enc_index s.enc_payload)
          (created_with (recording env) secret_id vault_id type s r d).1
  unfolding created_with cache_created
  created_with-Durable secret_id vault_id type s back (ok _) d id logged h =
      bind-ends (Durable env.json _) (cache_created (recording env) secret_id vault_id type s false)
        (λ _. pure secret_id) d id h λ _ _ _. inl ((statement-SameLog _).at d _ (logged refl))
  created_with-Durable secret_id vault_id type s back (err e) d id logged h =
      or_raised env.json _ (should_fallback_offline e)
        (create_offline (recording env) secret_id vault_id type s) e d id
        (create_offline-InQueue secret_id vault_id type s back d id) h

  -- Whatever the server answers and whichever statements fail, if the bodies in the queue read back: a
  -- secret that was reported as created was accepted by the server or waits in the queue, with the
  -- ciphertexts of its tiers under the key of the vault and the first version.
  pub create-Durable :
      (draws : Draws) (secret_id vault_id : String) (type : ℕ) (t : Tiers)
      → ((s : Sealed) → ReadsBack env.json.creates (outbox_create secret_id vault_id type s))
      → (d : Device (S × List Change)) (id : String)
      → (create_typed (recording env) draws secret_id vault_id type t d).0 ≡ ok id
      → (s : Sealed) × SealedFrom env draws vault_id secret_id create_version t s
        × Durable env.json
            (created secret_id vault_id type s.enc_row s.enc_index s.enc_payload)
            (create_typed (recording env) draws secret_id vault_id type t d).1
  unfolding create_typed recorded attempt
  create-Durable draws secret_id vault_id type t back d id h =
      let Q : Device (S × List Change) → Type 0 = λ d'.
        (s : Sealed) × SealedFrom env draws vault_id secret_id create_version t s
        × Durable env.json (created secret_id vault_id type s.enc_row s.enc_index s.enc_payload)
            d' in
      bind-ends Q (vault_context (recording env) vault_id) _ d id h λ context hc h1.
        bind-ends Q (encrypt_tiers (recording env) draws context.0 vault_id secret_id _ t) _ _ id h1
          λ s hs h2. (
            s,
            unrecorded-SealedFrom env draws vault_id secret_id _ t s (
                encrypt_tiers-SealedFrom (recording env) draws vault_id secret_id _ t context.0 _ s
                  (vault_context-key (recording env) vault_id _ context hc) hs),
            created_with-Durable secret_id vault_id type s (back s) _ _ id
                (λ ha. noted_call _ _ _ tt ha) h2,
          )
