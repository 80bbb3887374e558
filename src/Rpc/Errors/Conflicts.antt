-- ===== src/Rpc/Errors/Conflicts.antt =====
-- A conflict on its way through grpcserver/errors.go and grpcclient/errors.go.
use yandex_go_final_diploma.Prelude.{Option, none, some, ◌≡◌, ◌≢◌, refl, arith}
use yandex_go_final_diploma.Server.Domain.{Secret}
use yandex_go_final_diploma.Server.Errors.{Err, secret, conflict}
use yandex_go_final_diploma.Client.Errors.{ClientErr, ServerSecret}
use yandex_go_final_diploma.Rpc.{Code, Status, status, StatusLibrary, StatusLaws, secret_conflict}
use yandex_go_final_diploma.Rpc.Messages.{to_int32}
use yandex_go_final_diploma.Rpc.Errors.{
  map_err, change_err, map_secret_err, secret_err_code, secret_conflict_status,
  secret_conflict_detail, conflict_from_status, conflict_in, map_code, with_detail,
}

-- The row of the server as a conflict shows it to the client.
abbrev pub shown : Secret → ServerSecret
shown s = record {
  id = s.id;
  type = to_int32 s.type;
  version = s.version;
  enc_row = s.enc_row;
  enc_index = s.enc_index;
  enc_payload = s.enc_payload;
}

-- A status with no detail is told as no conflict.
pub plain_conflict :
    (code : Code) (c : ServerSecret) → change_err (status code) ≢ ClientErr.conflict c
unfolding change_err conflict_from_status conflict_in map_err map_code
plain_conflict code c h = ground (arith, h)

module _ (g : StatusLibrary) (laws : StatusLaws g) where
  -- A change is told a conflict only for a conflict, and then with its secret.
  with_detail-conflict :
      (k : Secret) (o : Option Status) (c : ServerSecret)
      → g.with_details (status Code.aborted) (secret_conflict (secret_conflict_detail k)) ≡ o
      → change_err (with_detail o) ≡ ClientErr.conflict c
      → c ≡ shown k
  unfolding change_err conflict_from_status conflict_in map_err map_code secret_conflict_detail
  with_detail-conflict k none c h e = ground (arith, e)
  with_detail-conflict k (some s) c h e = ground (arith, e, laws.appends _ s _ h)

  -- The client is told a conflict only for a conflict, and then with the secret in it.
  pub change_err-conflict :
      (e : Err) (c : ServerSecret)
      → change_err (map_secret_err g e) ≡ ClientErr.conflict c
      → (k : Secret) × (e ≡ conflict k) × (c ≡ shown k)
  unfolding map_secret_err secret_conflict_status
  change_err-conflict (conflict k) c h = (k, refl, with_detail-conflict k _ c refl h)
  change_err-conflict (secret e) c h = absurd (plain_conflict (secret_err_code e) c h)
  change_err-conflict e c h = absurd (plain_conflict Code.internal c h)
