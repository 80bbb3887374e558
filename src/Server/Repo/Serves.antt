-- ===== src/Server/Repo/Serves.antt =====
-- The id that a method parses before its one statement.
use yandex_go_final_diploma.Prelude.{ℕ, String, Option, none, some}
use yandex_go_final_diploma.Exec.{pure, raise, ◌>>=◌}
use yandex_go_final_diploma.Server.Errors.{Err}
use yandex_go_final_diploma.Server.External.{External}
use yandex_go_final_diploma.Server.Store.{Action, Query}
use yandex_go_final_diploma.Server.Tx.Runs.{Serves}
use yandex_go_final_diploma.Server.Tx.Serves.{Serves-raise}
use yandex_go_final_diploma.Server.Repo.{parse_uuid_or}

module _ {A : Type 0} (e : Err) (f : ℕ → Action A) (g : ℕ → Query A) where
  parsed :
      (o : Option ℕ)
      → ((n : ℕ) → Serves (f n) (g n))
      → Serves
          ((elim o [ none ↦ raise e | some n ↦ pure n ]) >>= f)
          ((elim o [ none ↦ raise e | some n ↦ pure n ]) >>= g)
  parsed none h = Serves-raise e
  parsed (some n) h = h n

  pub Serves-parse :
      (x : External) (id : String)
      → ((n : ℕ) → Serves (f n) (g n))
      → Serves (parse_uuid_or x id e >>= f) (parse_uuid_or x id e >>= g)
  unfolding parse_uuid_or
  Serves-parse x id h = parsed (x.parse_uuid id) h
