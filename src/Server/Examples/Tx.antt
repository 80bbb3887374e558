-- ===== src/Server/Examples/Tx.antt =====
-- Retries and transactions at concrete inputs.
use yandex_go_final_diploma.Prelude.{◌≡◌, [], ◌∷◌, arith, find}
use yandex_go_final_diploma.Exec.{err}
use yandex_go_final_diploma.Server.Errors.{db, conn_lost}
use yandex_go_final_diploma.Server.Store.{fine, lost_reading, atomic}
use yandex_go_final_diploma.Server.Tx.{pool, tx, exec, query, do_tx, querier}
use yandex_go_final_diploma.Server.Store.Queries
use yandex_go_final_diploma.Server.Store.Queries.{find_secret, find_vault, vault_of_user}
use yandex_go_final_diploma.Server.Tx.Outages
use yandex_go_final_diploma.Server.Tx.Outages.{outages, querier-outages}
use yandex_go_final_diploma.Server.Tx.Refines.{
  Refines, Refines-Performs, do_tx-Refines, querier-Refines,
}
use yandex_go_final_diploma.Server.Examples.Data.{base}

do_tx-Refines_example :
    Refines
      (do_tx pool (λ ctx. querier ctx exec (Queries.bump_vault_version 1)))
      (atomic (atomic (Queries.bump_vault_version 1)))
do_tx-Refines_example =
    do_tx-Refines (λ ctx. querier ctx exec (Queries.bump_vault_version 1))
      (atomic (Queries.bump_vault_version 1))
      (Refines-Performs (querier-Refines tx exec (Queries.bump_vault_version 1)))

querier-Refines_example :
    Refines
      (querier pool exec (Queries.bump_vault_version 1))
      (atomic (Queries.bump_vault_version 1))
querier-Refines_example = querier-Refines pool exec (Queries.bump_vault_version 1)

bump-Settled : Outages.Settled (Queries.bump_vault_version 1 base).0
unfolding Queries.bump_vault_version find_vault find
bump-Settled = tt

querier-outages_example :
    (querier pool exec
        (Queries.bump_vault_version 1)
        (record { store = base; events = outages fine 2 [] })
      ≡ (
        (atomic (Queries.bump_vault_version 1) base).0,
        record { store = (atomic (Queries.bump_vault_version 1) base).1; events = [] },
      ))
    × (querier pool exec
          (Queries.bump_vault_version 1)
          (record { store = base; events = outages fine 3 [] })
        ≡ (err (db conn_lost), record { store = base; events = fine ∷ outages fine 0 [] }))
    × (querier pool query
          (Queries.bump_vault_version 1)
          (record { store = base; events = outages lost_reading 2 [] })
        ≡ (err (db conn_lost), record { store = base; events = [] }))
querier-outages_example =
    querier-outages (Queries.bump_vault_version 1) base [] exec 2 0 bump-Settled (omega arith)
