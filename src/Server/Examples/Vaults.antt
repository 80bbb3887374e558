-- ===== src/Server/Examples/Vaults.antt =====
-- What a client is told of its vaults, at concrete inputs.
use yandex_go_final_diploma.Server.Examples.Ids.{sample, sample-UuidLaws}
use yandex_go_final_diploma.Prelude.{ℕ, ◌≡◌, ◌≢◌, refl, none, some, List, [], ◌∷◌, find, update}
use yandex_go_final_diploma.Exec.{ok, refuse_if}
use yandex_go_final_diploma.Server.Store.{
  Event, lost_connection, aborted, atomic, draw, keep_on_error, send, under,
}
use yandex_go_final_diploma.Server.Errors.{is_tx_retryable, is_conn_retryable}
use yandex_go_final_diploma.Server.Tx.{
  pool, do_tx, querier, retrying, ask, asked, read_rows, with_retry, attempts, retry, after_delay,
  body, close, finish, rollback, round,
}
use yandex_go_final_diploma.Server.Tx.Runs.{hide_no_rows, swap_no_rows}
use yandex_go_final_diploma.Server.Repo.{parse_uuid_or}
use yandex_go_final_diploma.Server.Repo.Secrets as Repo
use yandex_go_final_diploma.Server.Repo.Secrets.{to_secret}
use yandex_go_final_diploma.Server.Store.Queries
use yandex_go_final_diploma.Server.Store.Queries.{find_secret, find_vault, vault_of_user}
use yandex_go_final_diploma.Server.Secrets.{
  create_secret, update_secret, update_body, create_body, check_current,
}
use yandex_go_final_diploma.Server.Secrets.History.{Call, creates, updates, after_all}
use yandex_go_final_diploma.Server.Secrets.Spec
use yandex_go_final_diploma.Server.Secrets.Spec.{edited, removed}
use yandex_go_final_diploma.Server.Tx.Runs.{Serves}
use yandex_go_final_diploma.Server.Examples.Data.{vault_row, secret_row, base, edit, new}
use yandex_go_final_diploma.Prelude.{select}
use yandex_go_final_diploma.Server.Store.Accounts
use yandex_go_final_diploma.Server.Repo.Vaults as RepoVaults
use yandex_go_final_diploma.Server.Repo.Vaults.{Version}
use yandex_go_final_diploma.Server.Store.Queries.{order_by, insert_by}
use yandex_go_final_diploma.Server.Secrets.History.{after}
use yandex_go_final_diploma.Server.Vaults as Vaults
use yandex_go_final_diploma.Server.Vaults.{check_freshness, create_vault, list_vaults}
use yandex_go_final_diploma.Server.Vaults.Spec as VaultSpec
use yandex_go_final_diploma.Server.Vaults.Refines.{calls-Serve}
use yandex_go_final_diploma.Server.Vaults.Freshness.{
  Shows, freshness-Shows_changed, freshness-Shows_created,
}

-- User 0 edits a secret and user 9 creates one.
abbrev changes : List (Call × ℕ × List Event)
changes = (updates (edit 1), 210, aborted ∷ []) ∷ (creates new, 220, []) ∷ []

changes-edit :
    find_secret 3 (after_all sample changes base) ≡ some (edited (edit 1) (secret_row 3 1))
unfolding after_all after create_secret create_body Repo.create Repo.is_owner Repo.is_owner_of
    Accounts.vault_belongs_to_user Queries.create_secret update_secret update_body
    Repo.update_fields Queries.update_secret_fields refuse_if do_tx querier retrying ask asked
    read_rows with_retry attempts retry after_delay body close finish rollback round hide_no_rows
    swap_no_rows check_current parse_uuid_or is_tx_retryable is_conn_retryable atomic draw
    keep_on_error send under find update find_secret find_vault vault_of_user to_secret
    Repo.get_for_update Queries.get_secret_for_update Repo.bump_vault_version
    Queries.bump_vault_version
changes-edit = refl

changes-new :
    find_secret 6 (after_all sample changes base)
    ≡ some (Spec.new_secret new 6 2 (record base { now = 220 }))
unfolding Spec.new_secret after_all after create_secret create_body Repo.create Repo.is_owner
    Repo.is_owner_of Accounts.vault_belongs_to_user Queries.create_secret update_secret update_body
    Repo.update_fields Queries.update_secret_fields refuse_if do_tx querier retrying ask asked
    read_rows with_retry attempts retry after_delay body close finish rollback round hide_no_rows
    swap_no_rows check_current parse_uuid_or is_tx_retryable is_conn_retryable atomic draw
    keep_on_error send under find update find_secret find_vault vault_of_user to_secret
    Repo.get_for_update Queries.get_secret_for_update Repo.bump_vault_version
    Queries.bump_vault_version
changes-new = refl

-- Vault 1 of user 0 has counted up from 5 to 6.
shown_to_0 :
    (check_freshness sample pool
      (sample.uuid_text 0)
      (record { store = after_all sample changes base; events = lost_connection ∷ [] })).0
    ≡ ok (record { id = sample.uuid_text 1; version = 6 } ∷ [])
unfolding check_freshness RepoVaults.check_freshness RepoVaults.to_version
    Accounts.check_vault_freshness order_by insert_by select after_all after create_secret
    create_body Repo.create Repo.is_owner Repo.is_owner_of Accounts.vault_belongs_to_user
    Queries.create_secret update_secret update_body Repo.update_fields Queries.update_secret_fields
    refuse_if do_tx querier retrying ask asked read_rows with_retry attempts retry after_delay body
    close finish rollback round hide_no_rows swap_no_rows check_current parse_uuid_or
    is_tx_retryable is_conn_retryable atomic draw keep_on_error send under find update find_secret
    find_vault vault_of_user to_secret Repo.get_for_update Queries.get_secret_for_update
    Repo.bump_vault_version Queries.bump_vault_version
shown_to_0 = refl

shown_to_9 :
    (check_freshness sample pool
      (sample.uuid_text 9)
      (record { store = after_all sample changes base; events = [] })).0
    ≡ ok (record { id = sample.uuid_text 2; version = 6 } ∷ [])
unfolding check_freshness RepoVaults.check_freshness RepoVaults.to_version
    Accounts.check_vault_freshness order_by insert_by select after_all after create_secret
    create_body Repo.create Repo.is_owner Repo.is_owner_of Accounts.vault_belongs_to_user
    Queries.create_secret update_secret update_body Repo.update_fields Queries.update_secret_fields
    refuse_if do_tx querier retrying ask asked read_rows with_retry attempts retry after_delay body
    close finish rollback round hide_no_rows swap_no_rows check_current parse_uuid_or
    is_tx_retryable is_conn_retryable atomic draw keep_on_error send under find update find_secret
    find_vault vault_of_user to_secret Repo.get_for_update Queries.get_secret_for_update
    Repo.bump_vault_version Queries.bump_vault_version
shown_to_9 = refl

vault_1 : find_vault 1 base ≡ some (vault_row 1 0)
unfolding find_vault find
vault_1 = refl

vault_2 : find_vault 2 base ≡ some (vault_row 2 9)
unfolding find_vault find
vault_2 = refl

secret_3 : find_secret 3 base ≡ some (secret_row 3 1)
unfolding find_secret find
secret_3 = refl

no_secret_6 : find_secret 6 base ≡ none
unfolding find_secret find
no_secret_6 = refl

edit-differs : edited (edit 1) (secret_row 3 1) ≢ secret_row 3 1
edit-differs h = cc

new-in_vault_2 :
    find_vault (Spec.new_secret new 6 2 (record base { now = 220 })).vault_id base
    ≡ some (vault_row 2 9)
unfolding Spec.new_secret find_vault find
new-in_vault_2 = refl

freshness-Shows_changed_example :
    Shows sample 1 5 (record { id = sample.uuid_text 1; version = 6 } ∷ [])
freshness-Shows_changed_example =
    freshness-Shows_changed sample sample-UuidLaws (sample.uuid_text 0) 0 changes base
      (lost_connection ∷ []) 3 (secret_row 3 1) (edited (edit 1) (secret_row 3 1)) (vault_row 1 0)
      (record { id = sample.uuid_text 1; version = 6 } ∷ []) refl vault_1 refl secret_3 changes-edit
      edit-differs shown_to_0

freshness-Shows_created_example :
    Shows sample
      (Spec.new_secret new 6 2 (record base { now = 220 })).vault_id
      5
      (record { id = sample.uuid_text 2; version = 6 } ∷ [])
freshness-Shows_created_example =
    freshness-Shows_created sample sample-UuidLaws (sample.uuid_text 9) 9 changes base [] 6
      (Spec.new_secret new 6 2 (record base { now = 220 })) (vault_row 2 9)
      (record { id = sample.uuid_text 2; version = 6 } ∷ []) refl new-in_vault_2 refl no_secret_6
      changes-new shown_to_9

abbrev new_vault : Vaults.CreateParams
new_vault = record { user_id = sample.uuid_text 0; wrapped_vault_key = 7 ∷ []; enc_name = 8 ∷ [] }

calls-Serve_example :
    Serves (create_vault sample pool new_vault) (VaultSpec.create_vault sample new_vault)
    × Serves
        (list_vaults sample pool (sample.uuid_text 0))
        (VaultSpec.list_vaults sample (sample.uuid_text 0))
    × Serves
        (check_freshness sample pool (sample.uuid_text 0))
        (VaultSpec.check_freshness sample (sample.uuid_text 0))
calls-Serve_example = calls-Serve sample new_vault (sample.uuid_text 0)
