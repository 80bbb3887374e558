-- ===== src/Rpc.antt =====
-- The client and the server put together over gRPC: api/proto, internal/server/transport/grpcserver and
-- internal/client/grpcclient.
pub mod Messages
pub mod Errors
pub mod Auth
pub mod Handlers
pub mod Network
pub mod GrpcClient
pub mod Replay
pub mod Examples
use yandex_go_final_diploma.Prelude.{Option, List, [], ◌∷◌, ◌++◌, ◌≡◌, some}
use yandex_go_final_diploma.Rpc.Messages.{SecretConflict}

-- google.golang.org/grpc/codes. OK is left out: a status with that code is no error.
pub data Code : Type 0 where
  cancelled unknown invalid_argument deadline_exceeded not_found already_exists : Code
  permission_denied resource_exhausted failed_precondition aborted out_of_range : Code
  unimplemented internal unavailable data_loss unauthenticated : Code

pub data Detail : Type 0 where
  secret_conflict : SecretConflict → Detail
  other_detail : Detail

-- An error of google.golang.org/grpc/status; nothing reads its text.
pub record Status : Type 0 where
  pub code : Code
  pub details : List Detail

-- `status.Error`
abbrev pub status : Code → Status
status c = record { code = c; details = [] }

-- `Status.WithDetails`, none where it returns an error.
pub record StatusLibrary : Type 0 where
  pub with_details : Status → Detail → Option Status

-- The detail comes behind those that are there, and the code stays.
pub record StatusLaws (g : StatusLibrary) : Type 0 where
  pub appends :
      (s s' : Status) (d : Detail)
      → g.with_details s d ≡ some s'
      → s' ≡ record s { details = s.details ++ d ∷ [] }
