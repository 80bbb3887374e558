-- ===== src/Client/Examples/Replay.antt =====
-- The replay of the queue at concrete inputs.
use yandex_go_final_diploma.Prelude.{none, some, ◌≡◌, ◌⊎◌, refl, [], find}
use yandex_go_final_diploma.Client.Local.Outbox.{find_entry}
use yandex_go_final_diploma.Client.Replay.{replay_outbox}
use yandex_go_final_diploma.Client.Replay.Recorded.{recorded, recorded_uploader, Accepted}
use yandex_go_final_diploma.Client.Replay.Waits.{Waits}
use yandex_go_final_diploma.Client.Replay.Kept.{replay-loses_none}
use yandex_go_final_diploma.Client.Examples.Data.{a_device, a_server, a_json, an_edit, tables}

found_first : find_entry 1 tables ≡ some (an_edit 1 "s1")
unfolding find_entry find
found_first = refl

replay-loses_none_example :
    Waits
      (an_edit 1 "s1")
      (replay_outbox (recorded a_server) (recorded_uploader none) a_json (a_device (0, []))).1.local
    ⊎ Accepted a_json
        (an_edit 1 "s1")
        (replay_outbox
          (recorded a_server)
          (recorded_uploader none)
          a_json
          (a_device (0, []))).1.remote.1
replay-loses_none_example =
    replay-loses_none a_json (an_edit 1 "s1") a_server none (a_device (0, []))
      ((refl, tt), (tt, tt)) found_first
