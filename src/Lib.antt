-- ===== src/Lib.antt =====
-- GophKeeper is a password manager: clients encrypt secrets and keep them in vaults, a gRPC server
-- stores the ciphertexts in PostgreSQL and numbers their versions, and clients synchronise by
-- comparing versions. This library models how the server stores secrets and vaults and checks
-- tokens, how a client keeps its copy, queues changes and synchronises, how the two talk over gRPC, and
-- how blobs and files are encrypted.
--
-- The parts, from the bottom up (paths are from the repository's root):
--   Server/Domain, Server/Errors   internal/server/domain and the errors of internal/server/usecase
--   Server/Store                   the tables (internal/server/infra/postgres/gen/models.go) as lists of
--                                  rows, with one function for each statement of gen/*.sql.go in
--                                  Store/Queries (secrets) and Store/Accounts (users, vaults, codes)
--   Server/Tx                      retry.go, retrying_db.go, base.go and tx.go of infra/postgres: withRetry
--                                  is `with_retry`, DB.querier is `querier`, TxManager.Do is `do_tx`
--   Server/Repo                    infra/postgres/repo_*.go: Repo/Secrets (with IsOwner of repo_vault.go),
--                                  Repo/Vaults, Repo/Recovery, Repo/Users
--   Server/Secrets                 internal/server/usecase/secret, one function for each scenario; the
--                                  `_body` functions are the bodies that the scenarios hand to TxManager.Do
--   Server/Vaults                  internal/server/usecase/vault over Server/Repo/Vaults, which is the rest of
--                                  repo_vault.go; Vaults/Freshness relates the versions that a client is
--                                  shown to the history of calls on secrets
--   Server/Auth                    the recovery codes of internal/server/usecase/auth/recovery.go over
--                                  Server/Repo/Recovery (repo_recovery.go)
--   Server/Accounts                register.go, login.go, refresh.go, setup_encryption.go and
--                                  password_hash.go there over Server/Repo/Users (repo_user.go), with
--                                  argon2id as a parameter; Accounts/Spec states the decisions,
--                                  Accounts/History composes calls
--   Jwt                            pkg/jwt/token.go over golang-jwt, a parameter `Library` with the time as an
--                                  argument; `LibraryLaws` is what the code relies on there
--   Client/Local                   internal/client/localstore: the tables of the SQLite database, one function
--                                  for each statement in Local/Secrets, Local/Vaults and Local/Outbox;
--                                  Local/Caches is about the index and the payload that are cached
--   Client/Device                  internal/client/contracts: the server as a record of calls, the bodies of
--                                  queued operations, and a device on which the scenarios run
--   Client/Sync, Client/Progress   engine.go and progress.go of internal/client/usecase/sync
--   Client/Replay                  outbox_replay.go there; Replay/Recorded puts a recorder before the server
--   Client/Secrets                 internal/client/usecase/secret: usecase.go, aad.go and tiers.go;
--                                  Secrets/Scenarios is create.go, update.go, generic.go, resolve_conflict.go
--                                  and offline.go, Secrets/Sealing ties ciphertexts to the tiers that
--                                  they were made of, Secrets/Loading is list_index.go and get_payload.go
--   Crypto                         pkg/crypto/aead.go is Crypto/Aead, internal/client/cryptoimpl/stream_aead.go
--                                  is Crypto/Stream, frame.go and the streams of binary.go of
--                                  internal/client/usecase/secret are Crypto/Frame and Crypto/Binary
--   Rpc                            the two sides put together: internal/server/transport/grpcserver is
--                                  Rpc/Auth (the interceptor), Rpc/Errors and Rpc/Handlers with the mappers,
--                                  internal/client/grpcclient is Rpc/GrpcClient, whose `remote_client` is a
--                                  `ServerClient` for the scenarios; Rpc/Network is what lies in between
-- Secrets/Spec, Vaults/Spec and Accounts/Spec state what the scenarios promise as one decision on the
-- database, without transactions or failures; Secrets/Decides and the two Refines connect them with
-- the code.
-- Secrets/History composes calls. Server/Examples runs the model on a small database.
--
-- State and failures. An `Exec S E A` is a function from a state to a result and a state. Repository
-- code is written over a runner of statements: `q ctx` sends them as the context says, in a `World`
-- that holds the database and a list of events, one for each statement, begin, commit and wait;
-- `alone` runs them on a database with no environment. An event says that the step goes well, that
-- the connection was lost before the statement was sent (what pgconn.SafeToRetry accepts), which either
-- `Exec` or `Query` reports itself or, for `Query`, shows only where the rows are read, that the
-- database aborted it (a serialization failure or a deadlock), that it failed otherwise, or that the
-- request was cancelled. Behind the end of the list nothing fails. A failed statement or commit has
-- no effect: a commit whose acknowledgement is lost is not modelled.
--
-- Calls on the database come one after another. The rows that a scenario decides on are read FOR
-- UPDATE, so that two transactions on one secret are ordered by the lock; other interleavings of
-- transactions are not modelled. `withRetry` makes three rounds, `more_attempts` is the other two; the
-- server uses no other fuel.
--
-- On the client a `Scenario` runs on a `Device S`: the local database, a list that says of each local
-- statement to come whether it fails, the stored access token, and S, which is all that is elsewhere:
-- the server, the network and the files. `run_local` is one statement, `run_remote` one call; nothing
-- is assumed of the calls, so that S covers other devices, lost answers and any failure. The scenarios
-- of one device come one after another.
--
-- Between the two, each call has a `Passage`: what others do to secrets before it arrives, the clocks
-- and the failures that the server meets, and whether the request or the reply is lost. Behind the end
-- of the list the server is out of reach. An error of a call is a status of google.golang.org/grpc;
-- `StatusLaws` is what is relied on there.
--
-- The decoder of a file takes a turn for each frame, on fuel: one more than the bytes that are left,
-- which is enough since each turn but the last reads the four bytes of a length.
--
-- Numbers. An id is a UUID, a 128-bit number. Versions are natural numbers, and a statement that would
-- count one past 2 ^ 63 - 1 reports an error as PostgreSQL's bigint does. The model's UUID text, its
-- parser, gen_random_uuid, citext's folding and the text that a jsonb column gives back for a text are
-- fields of `External`; that the text of a UUID reads back (`UuidLaws`), and that a reader of JSON
-- finds the same value in what a jsonb column gives back (`JsonbLaws`), is what is assumed of them.
-- Times in tokens and their lifetimes are whole seconds. On the client ids are texts, an `int64` is its
-- bit pattern and wraps around where it is counted up; the counter of a stream wraps at 2 ^ 64.
-- XChaCha20-Poly1305, argon2id, `rand.Read`, JSON and `%d` are parameters (`Aead`, `Argon2id`,
-- `Entropy`, `Json`, `Env`); what is assumed of them stands in the theorems that need it.
--
-- Not modelled: the streams and handlers of blobs and their use cases, how argon2id works and the
-- derivation of keys, migrations, configuration and logging; on the client the sessions and the
-- storage of keys, the scenarios on vaults and accounts, the staging of files, search, one-time
-- passwords, and the resolution of conflicts of queued changes; the terminal
-- interface and the commands, which are presentation; times other than
-- `created_at`, which nothing in these parts reads.
pub mod Prelude
pub mod Exec
pub mod Client
pub mod Crypto
pub mod Jwt
pub mod Rpc
pub mod Server
