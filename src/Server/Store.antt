-- ===== src/Server/Store.antt =====
-- The database as the statements see it (infra/postgres/migrations), and the runs of a statement.
pub mod Queries
pub mod Accounts
pub mod Lookups
pub mod Rows
use yandex_go_final_diploma.Prelude.{ℕ, String, Bool, Option, List, [], ◌∷◌}
use yandex_go_final_diploma.Exec.{Exec, Result, ok, err}
use yandex_go_final_diploma.Server.Domain.{Bytes, SecretType}
use yandex_go_final_diploma.Server.Errors.{
  Err, db, context_done, DbErr, conn_lost, serialization_failure, other_failure,
}

-- A UUID is a 128-bit number; a NULL in a `bytea` column is the empty string of bytes.
pub record UserRow : Type 0 where
  pub id : ℕ
  pub login : String
  pub auth_hash : String
  pub enc_kdf_salt : Bytes
  pub enc_kdf_params : Bytes
  pub enc_master_key : Bytes

pub record VaultRow : Type 0 where
  pub id : ℕ
  pub user_id : ℕ
  pub wrapped_vault_key : Bytes
  pub enc_name : Bytes
  pub version : ℕ
  pub deleted : Bool
  pub created_at : ℕ

pub record SecretRow : Type 0 where
  pub id : ℕ
  pub vault_id : ℕ
  pub type : SecretType
  pub enc_row : Bytes
  pub enc_index : Bytes
  pub enc_payload : Bytes
  pub blob_ref : Option String
  pub blob_size : Option ℕ
  pub version : ℕ
  pub deleted : Bool
  pub created_at : ℕ

pub record RecoveryRow : Type 0 where
  pub user_id : ℕ
  pub code_id : String
  pub enc_master_key : Bytes
  pub used : Bool

-- `now` is what `now()` returns, `seed` counts the values drawn by `gen_random_uuid()`.
pub record Db : Type 0 where
  pub users : List UserRow
  pub vaults : List VaultRow
  pub secrets : List SecretRow
  pub recovery_codes : List RecoveryRow
  pub now : ℕ
  pub seed : ℕ

-- What the environment does at each point where the code waits for it. A connection that is lost before
-- a statement is sent is reported by `Exec` or `Query` itself, or shows where the rows are read.
pub data Event : Type 0 where
  fine lost_connection lost_reading aborted broken cancelled : Event

-- An empty list of events is an environment that causes no more failures.
pub record World : Type 0 where
  pub store : Db
  pub events : List Event

abbrev pub Action : Type 0 → Type 0
Action A = Exec World Err A

abbrev pub Query : Type 0 → Type 0
Query A = Exec Db Err A

abbrev next_event : List Event → Event
next_event [] = fine
next_event (e ∷ es) = e

abbrev later_events : List Event → List Event
later_events [] = []
later_events (e ∷ es) = es

-- A statement, or a transaction, that fails writes nothing.
unfoldable pub keep_on_error : {A : Type 0} → Db → Result Err A × Db → Result Err A × Db
keep_on_error before (ok a, d) = (ok a, d)
keep_on_error before (err e, d) = (err e, before)

unfoldable pub atomic : {A : Type 0} → Query A → Query A
unfolding keep_on_error
atomic q d = keep_on_error d (q d)

-- The event at hand, and the world that waits for the next.
unfoldable pub draw : World → Event × World
draw w = (next_event w.events, record w { events = later_events w.events })

unfoldable pub under : {A : Type 0} → Event → Query A → Action A
unfolding atomic
under fine q w = let (r, d) = atomic q w.store in (r, record w { store = d })
under lost_connection q w = (err (db conn_lost), w)
under lost_reading q w = (err (db conn_lost), w)
under aborted q w = (err (db serialization_failure), w)
under broken q w = (err (db other_failure), w)
under cancelled q w = (err context_done, w)

-- One statement, sent once: it runs as a whole, or it fails and has written nothing.
unfoldable pub send : {A : Type 0} → Query A → Action A
unfolding draw under
send q w = let (e, w') = draw w in under e q w'
