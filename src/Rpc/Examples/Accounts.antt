-- ===== src/Rpc/Examples/Accounts.antt =====
-- A registration over the network, and calls with its tokens.
use yandex_go_final_diploma.Prelude.{
  String, some, [], ◌∷◌, ◌≡◌, refl, find, any, if◌then◌else◌, ltb, ◌+◌,
}
use yandex_go_final_diploma.Exec.{ok, err, refuse_if}
use yandex_go_final_diploma.Jwt.{issue, sign}
use yandex_go_final_diploma.Jwt.Examples.Plain.{plain-LibraryLaws, access_text, refresh_text}
use yandex_go_final_diploma.Server.Errors.{is_conn_retryable}
use yandex_go_final_diploma.Server.Store.{
  World, lost_connection, fine, atomic, draw, keep_on_error, send, under,
}
use yandex_go_final_diploma.Server.Store.Accounts as Statements
use yandex_go_final_diploma.Server.Store.Accounts.{find_login}
use yandex_go_final_diploma.Server.Store.Queries.{find_user}
use yandex_go_final_diploma.Server.Secrets.History.{after_all}
use yandex_go_final_diploma.Server.Tx.{
  querier, retrying, ask, asked, read_rows, with_retry, attempts, retry, after_delay,
}
use yandex_go_final_diploma.Server.Repo.Users as Repo
use yandex_go_final_diploma.Server.Accounts as Accounts
use yandex_go_final_diploma.Server.Accounts.{acquire_hash_slot, hashed, issued, hash_password}
use yandex_go_final_diploma.Server.Examples.Ids.{sample}
use yandex_go_final_diploma.Server.Examples.Data.{base}
use yandex_go_final_diploma.Server.Examples.Accounts.{spelling}
use yandex_go_final_diploma.Rpc.{Code, status}
use yandex_go_final_diploma.Rpc.Auth.{intercept, methods_without_auth}
use yandex_go_final_diploma.Rpc.Handlers as Handlers
use yandex_go_final_diploma.Rpc.Handlers.{respond}
use yandex_go_final_diploma.Rpc.Handlers.Accounts as AccountHandlers
use yandex_go_final_diploma.Rpc.Handlers.Accounts.{register_params, register_response}
use yandex_go_final_diploma.Rpc.Network.{
  Remote, Passage, answered, transport, along, passed, arrival,
}
use yandex_go_final_diploma.Rpc.GrpcClient.{served, reading}
use yandex_go_final_diploma.Rpc.GrpcClient.Accounts.{
  Tokens, register, tokens_of, served_bare, invoke_bare,
}
use yandex_go_final_diploma.Rpc.GrpcClient.Trusted.{registered, Gets-Trusted}
use yandex_go_final_diploma.Rpc.Examples.{site}

-- The connection is lost once as the user is entered.
abbrev passage : Passage
passage = record {
  clock = 4;
  now = 300;
  meanwhile = [];
  events = fine ∷ lost_connection ∷ [];
  fate = answered;
}

abbrev remote : Remote
remote = record { store = base; passages = passage ∷ []; past = [] }

abbrev uid : String
uid = sample.uuid_text 50

abbrev tokens : Tokens
tokens = record {
  access_token = access_text 4 9 uid;
  refresh_token = refresh_text 4 24 uid;
  user_id = uid;
}

boris-registered : (register site spelling [] "boris" (3 ∷ []) remote).0 ≡ ok tokens
unfolding register reading invoke_bare served_bare transport along passed arrival after_all
    intercept methods_without_auth any AccountHandlers.register register_params register_response
    tokens_of respond Accounts.register hash_password acquire_hash_slot hashed issued Repo.create
    Repo.created Repo.map_user Statements.create_user find_user find_login refuse_if querier
    retrying ask asked read_rows with_retry attempts retry after_delay is_conn_retryable atomic draw
    keep_on_error send under find issue sign
boris-registered = refl

abbrev later : World
later = record { store = base; events = [] }

-- Listing his vaults at 8, when the access token is good for one more second.
Gets-Trusted_example :
    (served site "/gophkeeper.v1.VaultService/ListVaults"
        (access_text 4 9 uid)
        (Handlers.list_vaults sample)
        8
        later
      ≡ (if ltb 8 (4 + 5)
          then Handlers.list_vaults sample (some uid) later
          else (err (status Code.unauthenticated), later)))
    × (served site "/gophkeeper.v1.VaultService/ListVaults"
          (refresh_text 4 24 uid)
          (Handlers.list_vaults sample)
          8
          later
        ≡ (err (status Code.unauthenticated), later))
unfolding any methods_without_auth
Gets-Trusted_example =
    Gets-Trusted site plain-LibraryLaws spelling passage remote tokens refl
      (registered [] "boris" (3 ∷ []) boris-registered) "/gophkeeper.v1.VaultService/ListVaults"
      (Handlers.list_vaults sample) 8 later refl
