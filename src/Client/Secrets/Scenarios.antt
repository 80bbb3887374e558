-- ===== src/Client/Secrets/Scenarios.antt =====
-- Changes of secrets: create.go, update.go, generic.go, resolve_conflict.go, offline.go and list_index.go
-- of internal/client/usecase/secret.
use yandex_go_final_diploma.Prelude.{
  ℕ, String, Bool, true, false, Option, none, some, str_eq, if◌then◌else◌,
}
use yandex_go_final_diploma.Exec.{Result, ok, err, pure, raise, refuse_if, ◌>>=◌, ◌>>◌}
use yandex_go_final_diploma.Server.Domain.{Bytes}
use yandex_go_final_diploma.Client.Errors.{
  ClientErr, ServerSecret, conflict, empty_secret_id, unknown_choice, should_fallback_offline,
}
use yandex_go_final_diploma.Client.Local.{OutboxEntry, OutboxOp, create, delete, pending}
use yandex_go_final_diploma.Client.Local.Secrets as Secrets
use yandex_go_final_diploma.Client.Local.Outbox as Outbox
use yandex_go_final_diploma.Client.Device.{
  Scenario, OutboxSecretCreate, OutboxSecretUpdate, OutboxSecretDelete, run_local, run_remote,
  next_version,
}
use yandex_go_final_diploma.Client.Replay.{attempt}
use yandex_go_final_diploma.Client.Secrets.{
  Env, Tiers, Sealed, Draws, create_version, vault_context, encrypt_tiers, decrypt_tiers,
  cache_created, cache_full_secret,
}

-- A queued operation on a secret. The database gives the id, and `pending` where no status is named.
abbrev pub queued : OutboxOp → String → ℕ → Bytes → OutboxEntry
queued op secret_id base_version body = record {
  id = 0;
  op = op;
  entity = "secret";
  entity_id = secret_id;
  base_version = base_version;
  payload = body;
  status = pending;
}

-- The bodies that are queued.
abbrev pub outbox_create : String → String → ℕ → Sealed → OutboxSecretCreate
outbox_create secret_id vault_id type s = record {
  secret_id = secret_id;
  vault_id = vault_id;
  type = type;
  enc_row = s.enc_row;
  enc_index = s.enc_index;
  enc_payload = s.enc_payload;
}

abbrev pub outbox_update : String → String → ℕ → ℕ → Sealed → OutboxSecretUpdate
outbox_update secret_id vault_id type base_version s = record {
  secret_id = secret_id;
  vault_id = vault_id;
  base_version = base_version;
  type = type;
  enc_row = s.enc_row;
  enc_index = s.enc_index;
  enc_payload = s.enc_payload;
}

abbrev pub outbox_delete : String → String → ℕ → OutboxSecretDelete
outbox_delete secret_id vault_id base_version = record {
  secret_id = secret_id;
  vault_id = vault_id;
  base_version = base_version;
}

-- `retryMine`: what a conflict repeats on the version of the server.
pub data Retry : Type 0 where
  retry_update : ℕ → Tiers → Retry
  retry_delete : Retry

-- `GenericConflict`, with the texts of the server's version and its ciphertexts.
pub record Conflict : Type 0 where
  pub secret_id : String
  pub vault_id : String
  pub is_delete : Bool
  pub theirs : Tiers
  pub server : ServerSecret
  pub retry_mine : Retry

pub data ConflictChoice : Type 0 where
  choice_mine choice_server other_choice : ConflictChoice

abbrev pub server_sealed : ServerSecret → Sealed
server_sealed s = record {
  enc_row = s.enc_row;
  enc_index = s.enc_index;
  enc_payload = s.enc_payload;
}

module _ {S : Type 0} where
  -- Without the server, or with an expired token, the change is queued.
  abbrev pub fallen_back : Bool → Scenario S (Unit {0}) → ClientErr → Scenario S (Option Conflict)
  fallen_back falls offline e = if falls then (offline >> pure none) else raise e

  -- A refused change: a conflict is shown.
  unfoldable pub refused_with :
      (ServerSecret → Scenario S (Option Conflict))
      → Scenario S (Unit {0})
      → ClientErr
      → Scenario S (Option Conflict)
  refused_with shown offline (conflict server) = shown server
  refused_with shown offline e = fallen_back (should_fallback_offline e) offline e

  unfoldable pub changed_with :
      {A : Type 0}
      → (ServerSecret → Scenario S (Option Conflict))
      → Scenario S (Unit {0})
      → Scenario S (Unit {0})
      → Result ClientErr A
      → Scenario S (Option Conflict)
  unfolding refused_with
  changed_with shown offline cached (ok _) = cached >> pure none
  changed_with shown offline cached (err e) = refused_with shown offline e

module _ {S : Type 0} (env : Env S) where
  unfoldable pub create_offline : String → String → ℕ → Sealed → Scenario S String
  unfolding cache_created
  create_offline secret_id vault_id type s = do
    cache_created env secret_id vault_id type s true
    run_local (
        Outbox.enqueue_outbox (
          queued create secret_id 0
            (env.json.creates.put (outbox_create secret_id vault_id type s))))
    pure secret_id

  unfoldable pub update_offline : String → String → ℕ → ℕ → Sealed → Scenario S (Unit {0})
  unfolding cache_full_secret
  update_offline secret_id vault_id type base_version s = do
    cache_full_secret env secret_id vault_id type s (next_version base_version) true
    run_local (
        Outbox.enqueue_outbox (
          queued OutboxOp.update secret_id base_version
            (env.json.updates.put (outbox_update secret_id vault_id type base_version s))))
    pure tt

  unfoldable pub delete_offline : String → String → ℕ → Scenario S (Unit {0})
  delete_offline secret_id vault_id base_version = do
    run_local (
        Outbox.enqueue_outbox (
          queued delete secret_id base_version
            (env.json.deletes.put (outbox_delete secret_id vault_id base_version))))
    run_local (Secrets.delete_secret secret_id)

  -- The new secret, with the server's answer.
  unfoldable pub created_with :
      String → String → ℕ → Sealed → Result ClientErr (Unit {0}) → Scenario S String
  unfolding cache_created create_offline
  created_with secret_id vault_id type s (ok _) = do
    cache_created env secret_id vault_id type s false
    pure secret_id
  created_with secret_id vault_id type s (err e) =
      if should_fallback_offline e then create_offline secret_id vault_id type s else raise e

  -- `secret_id` is the drawn UUID.
  unfoldable pub create_typed : Draws → String → String → ℕ → Tiers → Scenario S String
  unfolding vault_context encrypt_tiers created_with
  create_typed draws secret_id vault_id type t = do
    context ← vault_context env vault_id
    s ← encrypt_tiers env draws context.0 vault_id secret_id create_version t
    answer ← attempt (
        run_remote (
          env.server.create_secret context.1 secret_id vault_id type s.enc_row s.enc_index
            s.enc_payload))
    created_with secret_id vault_id type s answer

  -- `buildGenericConflict` and `buildDeleteConflict`
  unfoldable pub build_conflict :
      Bytes → String → String → Bool → Retry → ServerSecret → Scenario S (Option Conflict)
  unfolding decrypt_tiers
  build_conflict key vault_id secret_id is_delete retry server = do
    theirs ← decrypt_tiers env key vault_id secret_id server.version (server_sealed server)
    pure (
        some (record {
          secret_id = secret_id;
          vault_id = vault_id;
          is_delete = is_delete;
          theirs = theirs;
          server = server;
          retry_mine = retry;
        }))

  unfoldable pub update_typed :
      Draws → String → String → ℕ → ℕ → Tiers → Scenario S (Option Conflict)
  unfolding vault_context encrypt_tiers changed_with build_conflict update_offline cache_full_secret
  update_typed draws vault_id secret_id base_version type t = do
    context ← vault_context env vault_id
    s ← encrypt_tiers env draws context.0 vault_id secret_id (next_version base_version) t
    answer ← attempt (
        run_remote (
          env.server.update_secret context.1 secret_id base_version s.enc_row s.enc_index
            s.enc_payload))
    changed_with (build_conflict context.0 vault_id secret_id false (retry_update type t))
        (update_offline secret_id vault_id type base_version s)
        (cache_full_secret env secret_id vault_id type s (next_version base_version) false) answer

  unfoldable pub delete_secret : String → String → ℕ → Scenario S (Option Conflict)
  unfolding refuse_if vault_context changed_with build_conflict delete_offline
  delete_secret vault_id secret_id base_version = do
    refuse_if (str_eq secret_id "") empty_secret_id
    context ← vault_context env vault_id
    answer ← attempt (run_remote (env.server.delete_secret context.1 secret_id base_version))
    changed_with (build_conflict context.0 vault_id secret_id true retry_delete)
        (delete_offline secret_id vault_id base_version)
        (run_local (Secrets.delete_secret secret_id)) answer

  unfoldable pub retry_with : Draws → Conflict → ℕ → Retry → Scenario S (Option Conflict)
  unfolding update_typed delete_secret
  retry_with draws c base_version (retry_update type t) =
      update_typed draws c.vault_id c.secret_id base_version type t
  retry_with draws c base_version retry_delete = delete_secret c.vault_id c.secret_id base_version

  unfoldable pub generic_resolve_conflict :
      Draws → Conflict → ConflictChoice → Scenario S (Option Conflict)
  unfolding retry_with cache_full_secret
  generic_resolve_conflict draws c choice_mine = retry_with draws c c.server.version c.retry_mine
  generic_resolve_conflict draws c choice_server = do
    cache_full_secret env c.secret_id c.vault_id c.server.type (server_sealed c.server)
        c.server.version false
    pure none
  generic_resolve_conflict draws c other_choice = raise unknown_choice
