-- ===== src/Rpc/GrpcClient.antt =====
-- grpcclient/client.go over the server's handlers: the `ServerClient` on which the client's scenarios run.
pub mod Changes
pub mod Handled
pub mod Answers
pub mod Past
pub mod Unproved
pub mod Evidence
pub mod Recovery
pub mod Accounts
pub mod Trusted
use yandex_go_final_diploma.Prelude.{ℕ, String, List, map}
use yandex_go_final_diploma.Exec.{Exec, Result, ok, err}
use yandex_go_final_diploma.Jwt
use yandex_go_final_diploma.Server.Domain.{Bytes}
use yandex_go_final_diploma.Server.External.{External}
use yandex_go_final_diploma.Server.Store.{World}
use yandex_go_final_diploma.Client.Errors.{ClientErr}
use yandex_go_final_diploma.Client.Device.{
  ServerClient, VaultItem, VaultVersion, SecretRowItem, SecretIndexItem, SecretPayloadItem,
}
use yandex_go_final_diploma.Rpc.{Status, StatusLibrary}
use yandex_go_final_diploma.Rpc.Messages as Messages
use yandex_go_final_diploma.Rpc.Errors.{map_err, change_err}
use yandex_go_final_diploma.Rpc.Auth.{with_bearer, intercept}
use yandex_go_final_diploma.Rpc.Handlers as Handlers
use yandex_go_final_diploma.Rpc.Handlers.{Handler}
use yandex_go_final_diploma.Rpc.Network.{Remote, transport}

-- The server that the client reaches: `New` of grpcserver/server.go, with the issuer of the tokens as
-- the verifier.
pub record Site : Type 0 where
  pub external : External
  pub statuses : StatusLibrary
  pub tokens : Jwt.Library
  pub issuer : Jwt.TokenIssuer

abbrev pub read :
    {A B : Type 0} → (Status → ClientErr) → (A → B) → Result Status A → Result ClientErr B
read on_err response (ok a) = ok (response a)
read on_err response (err s) = err (on_err s)

-- The answer of a stub with its error and its response mapped.
unfoldable pub reading :
    {A B : Type 0} → (Status → ClientErr) → (A → B) → Exec Remote Status A → Exec Remote ClientErr B
reading on_err response call r = let (a, r') = call r in (read on_err response a, r')

module _ (site : Site) where
  -- The interceptor and the handler behind it.
  unfoldable pub served : {A : Type 0} → String → String → Handler A → ℕ → Exec World Status A
  unfolding intercept with_bearer
  served method token handler clock =
      intercept (λ t. Jwt.verify site.tokens site.issuer t clock) method (with_bearer token) handler

  -- The stub of a method, called with `withBearer`.
  unfoldable pub invoke : {A : Type 0} → String → String → Handler A → Exec Remote Status A
  unfolding served transport
  invoke method token handler = transport site.external (served method token handler)

  unfoldable pub create_vault : String → Bytes → Bytes → Exec Remote ClientErr String
  unfolding reading invoke
  create_vault token wrapped_vault_key enc_name =
      reading map_err (λ id. id)
        (invoke "/gophkeeper.v1.VaultService/CreateVault" token (
          Handlers.create_vault site.external
            (record { wrapped_vault_key = wrapped_vault_key; enc_name = enc_name })))

  unfoldable pub list_vaults : String → Exec Remote ClientErr (List VaultItem)
  unfolding reading invoke
  list_vaults token =
      reading map_err
        (map λ v. record {
          id = v.vault_id;
          wrapped_vault_key = v.wrapped_vault_key;
          enc_name = v.enc_name;
          version = v.version;
        })
        (invoke "/gophkeeper.v1.VaultService/ListVaults" token (Handlers.list_vaults site.external))

  unfoldable pub check_freshness : String → Exec Remote ClientErr (List VaultVersion)
  unfolding reading invoke
  check_freshness token =
      reading map_err (map λ v. record { id = v.vault_id; version = v.version }) (
        invoke "/gophkeeper.v1.VaultService/CheckFreshness" token
          (Handlers.check_freshness site.external))

  unfoldable pub create_secret :
      String → String → String → ℕ → Bytes → Bytes → Bytes → Exec Remote ClientErr (Unit {0})
  unfolding reading invoke
  create_secret token secret_id vault_id secret_type enc_row enc_index enc_payload =
      reading map_err (λ _. tt)
        (invoke "/gophkeeper.v1.SecretService/CreateSecret" token (
          Handlers.create_secret site.external site.statuses (record {
            secret_id = secret_id;
            vault_id = vault_id;
            type = secret_type;
            enc_row = enc_row;
            enc_index = enc_index;
            enc_payload = enc_payload;
          })))

  unfoldable pub update_secret :
      String → String → ℕ → Bytes → Bytes → Bytes → Exec Remote ClientErr ℕ
  unfolding reading invoke
  update_secret token secret_id base_version enc_row enc_index enc_payload =
      reading change_err (λ version. version)
        (invoke "/gophkeeper.v1.SecretService/UpdateSecret" token (
          Handlers.update_secret site.external site.statuses (record {
            secret_id = secret_id;
            base_version = base_version;
            enc_row = enc_row;
            enc_index = enc_index;
            enc_payload = enc_payload;
          })))

  unfoldable pub delete_secret : String → String → ℕ → Exec Remote ClientErr (Unit {0})
  unfolding reading invoke
  delete_secret token secret_id base_version =
      reading change_err (λ _. tt)
        (invoke "/gophkeeper.v1.SecretService/DeleteSecret" token (
          Handlers.delete_secret site.external site.statuses
            (record { secret_id = secret_id; base_version = base_version })))

  unfoldable pub list_secret_rows : String → String → Exec Remote ClientErr (List SecretRowItem)
  unfolding reading invoke
  list_secret_rows token vault_id =
      reading map_err
        (map
          λ s. record { id = s.secret_id; type = s.type; version = s.version; enc_row = s.enc_row })
        (invoke "/gophkeeper.v1.SecretService/ListRow" token
          (Handlers.list_row site.external site.statuses vault_id))

  unfoldable pub list_secret_index : String → String → Exec Remote ClientErr (List SecretIndexItem)
  unfolding reading invoke
  list_secret_index token vault_id =
      reading map_err
        (map λ s. record { id = s.secret_id; version = s.version; enc_index = s.enc_index })
        (invoke "/gophkeeper.v1.SecretService/ListIndex" token
          (Handlers.list_index site.external site.statuses vault_id))

  unfoldable pub get_secret_payload : String → String → Exec Remote ClientErr SecretPayloadItem
  unfolding reading invoke
  get_secret_payload token secret_id =
      reading map_err
        (λ p. record {
          id = p.secret_id;
          type = p.type;
          version = p.version;
          enc_payload = p.enc_payload;
        })
        (invoke "/gophkeeper.v1.SecretService/GetPayload" token
          (Handlers.get_payload site.external site.statuses secret_id))

  -- `Client` as the `ServerClient` of the scenarios.
  unfoldable pub remote_client : ServerClient Remote
  remote_client = record {
    check_freshness = check_freshness;
    list_vaults = list_vaults;
    list_secret_rows = list_secret_rows;
    list_secret_index = list_secret_index;
    get_secret_payload = get_secret_payload;
    create_secret = create_secret;
    update_secret = update_secret;
    delete_secret = delete_secret;
  }
