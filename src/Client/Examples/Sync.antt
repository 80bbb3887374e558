-- ===== src/Client/Examples/Sync.antt =====
-- Synchronisation at concrete inputs.
use yandex_go_final_diploma.Prelude.{none, true, ◌≡◌, refl, any}
use yandex_go_final_diploma.Client.Local.Secrets.{find_secret}
use yandex_go_final_diploma.Client.Sync.{sync}
use yandex_go_final_diploma.Client.Sync.Listed.{is_outstanding}
use yandex_go_final_diploma.Client.Sync.Guards.{sync-spares}
use yandex_go_final_diploma.Client.Progress.{sync_with_progress}
use yandex_go_final_diploma.Client.Progress.Same.{Same, sync_with_progress-Same}
use yandex_go_final_diploma.Client.Examples.Data.{a_device, a_server, tables}

s1_outstanding : is_outstanding "s1" tables.outbox ≡ true
unfolding is_outstanding any
s1_outstanding = refl

sync-spares_example :
    ((sync a_server (a_device 0)).1.local.outbox ≡ tables.outbox)
    × (find_secret "s1" (sync a_server (a_device 0)).1.local ≡ find_secret "s1" tables)
sync-spares_example = sync-spares a_server "s1" (a_device 0) s1_outstanding

sync_with_progress-Same_example : Same (sync_with_progress a_server none) (sync a_server)
sync_with_progress-Same_example = sync_with_progress-Same a_server
