-- ===== src/Server/Repo.antt =====
-- infra/postgres/repo_*.go over the statements: ids are parsed, a missing row becomes the error of
-- the use case, rows become entities.
pub mod Secrets
pub mod Vaults
pub mod Recovery
pub mod Users
pub mod Serves
pub mod Runs
use yandex_go_final_diploma.Prelude.{ℕ, String, Option, none, some}
use yandex_go_final_diploma.Exec.{Exec, pure, raise}
use yandex_go_final_diploma.Server.Errors.{Err}
use yandex_go_final_diploma.Server.External.{External}

-- `parseUUID`, and `parseUUIDOr`: an id that is no UUID is reported as `e`.
unfoldable pub parse_uuid_or : {S : Type 0} → External → String → Err → Exec S Err ℕ
parse_uuid_or x id e = elim (x.parse_uuid id) [ none ↦ raise e | some n ↦ pure n ]
