-- ===== src/Rpc/Examples.antt =====
-- A client, a network and a server at concrete inputs.
mod Accounts
use yandex_go_final_diploma.Prelude.{
  String, none, some, List, [], ◌∷◌, ◌++◌, ◌≡◌, ◌⊎◌, refl, arith, find,
}
use yandex_go_final_diploma.Jwt
use yandex_go_final_diploma.Jwt.Examples.Plain.{plain}
use yandex_go_final_diploma.Server.Examples.Ids.{sample, sample-UuidLaws}
use yandex_go_final_diploma.Server.Examples.Data.{base, calls}
use yandex_go_final_diploma.Client.Local.Outbox.{find_entry}
use yandex_go_final_diploma.Client.Device.{Json, Device, OutboxSecretUpdate}
use yandex_go_final_diploma.Client.Replay.{replay_outbox}
use yandex_go_final_diploma.Client.Replay.Recorded.{Change, change_as, recorded, recorded_uploader}
use yandex_go_final_diploma.Client.Replay.Waits.{Waits}
use yandex_go_final_diploma.Client.Examples.Data.{an_edit, tables}
use yandex_go_final_diploma.Rpc.{StatusLibrary, StatusLaws}
use yandex_go_final_diploma.Rpc.Messages.{UpdateSecretRequest}
use yandex_go_final_diploma.Rpc.Network.{Remote, Passage, answered, reply_lost, Fault}
use yandex_go_final_diploma.Rpc.GrpcClient.{Site, update_secret, remote_client, delete_secret}
use yandex_go_final_diploma.Rpc.GrpcClient.Changes.{Answers, wanted_edit}
use yandex_go_final_diploma.Rpc.GrpcClient.Answers.{changes-Answers}
use yandex_go_final_diploma.Rpc.GrpcClient.Unproved.{ProvesNoUser, IsRefused, calls-IsRefused}
use yandex_go_final_diploma.Rpc.GrpcClient.Evidence.{Evident}
use yandex_go_final_diploma.Rpc.Replay.{replay-Reaches, UploadsRemember}

abbrev appending : StatusLibrary
appending = record { with_details = λ s d. some (record s { details = s.details ++ d ∷ [] }) }

appending-StatusLaws : StatusLaws appending
appending-StatusLaws = record { appends = λ s s' d h. ground (arith, h) }

abbrev pub site : Site
site = record {
  external = sample;
  statuses = appending;
  tokens = plain;
  issuer = record { secret = 1 ∷ []; access_ttl = 5; refresh_ttl = 20 };
}

-- The access token of the user "u", issued at 3, and a refresh token of his.
abbrev access : String
access = "auuu.uuuuuuuu.u"

abbrev refreshing : String
refreshing = "ruuu.uuuuuuuuuuuuuuuuuuuuuuu.u"

-- Others create a secret and attach a blob before the first call comes; the reply of the second is lost.
abbrev passages : List Passage
passages =
    record { clock = 4; now = 300; meanwhile = calls; events = []; fate = answered }
    ∷ record {
      clock = 5;
      now = 310;
      meanwhile = [];
      events = [];
      fate = reply_lost Fault.unavailable;
    }
    ∷ []

abbrev remote : Remote
remote = record { store = base; passages = passages; past = [] }

abbrev edit : UpdateSecretRequest
edit = record {
  secret_id = "uuuu";
  base_version = 1;
  enc_row = 20 ∷ [];
  enc_index = 21 ∷ [];
  enc_payload = 22 ∷ [];
}

changes-Answers_example :
    Answers site
      (wanted_edit access edit)
      remote
      (λ v n. v ≡ n)
      (update_secret site access "uuuu" 1 (20 ∷ []) (21 ∷ []) (22 ∷ []) remote).0
      (update_secret site access "uuuu" 1 (20 ∷ []) (21 ∷ []) (22 ∷ []) remote).1.store
changes-Answers_example =
    (changes-Answers site sample-UuidLaws access appending-StatusLaws).0 edit remote

refreshing-ProvesNoUser : ProvesNoUser site refreshing
unfolding Jwt.verify
refreshing-ProvesNoUser clock user_id h = ground (arith, h)

calls-IsRefused_example : IsRefused site (delete_secret site refreshing "uuuu" 1)
calls-IsRefused_example = (calls-IsRefused site refreshing refreshing-ProvesNoUser).5 "uuuu" 1

abbrev queued_edit : OutboxSecretUpdate
queued_edit = record {
  secret_id = "uuuu";
  vault_id = "uu";
  base_version = 1;
  type = 3;
  enc_row = 20 ∷ [];
  enc_index = 21 ∷ [];
  enc_payload = 22 ∷ [];
}

-- Every body reads as the same edit.
abbrev json : Json
json = record {
  creates = record { put = λ _. []; get = λ _. none };
  updates = record { put = λ _. 1 ∷ []; get = λ _. some queued_edit };
  deletes = record { put = λ _. []; get = λ _. none };
  uploads = record { put = λ _. []; get = λ _. none };
}

abbrev device : Device (Remote × List Change)
device = record { local = tables; faults = []; token = some access; remote = (remote, []) }

found_edit : find_entry 1 tables ≡ some (an_edit 1 "s1")
unfolding find_entry find
found_edit = refl

no_uploads : UploadsRemember none
no_uploads u id vault_id h r d m = ground (arith, h)

replay-Reaches_example :
    Waits
      (an_edit 1 "s1")
      (replay_outbox (recorded (remote_client site)) (recorded_uploader none) json device).1.local
    ⊎ ((c : Change) × (change_as json (1 ∷ []) (an_edit 1 "s1").op ≡ some c)
        × Evident site c
            (replay_outbox
              (recorded (remote_client site))
              (recorded_uploader none)
              json
              device).1.remote.0)
replay-Reaches_example =
    replay-Reaches site sample-UuidLaws none no_uploads json (an_edit 1 "s1") device refl
      ((refl, tt), (tt, tt)) found_edit
