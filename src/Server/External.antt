-- ===== src/Server/External.antt =====
-- What the server takes from code that is not in the repository, and what it relies on there.
use yandex_go_final_diploma.Prelude.{ℕ, String, ◌≡◌, Option, some}
use yandex_go_final_diploma.Server.Domain.{Bytes}

-- `pgtype.UUID`'s `Scan` and `String`, PostgreSQL's `gen_random_uuid()` (its n-th value), the folding
-- of letter case by which `citext` compares logins, and what a `jsonb` column gives back of a text that
-- is put into it: the value with fields and blanks in an order of its own, or nothing where the text is
-- no JSON, which is refused.
pub record External : Type 0 where
  pub parse_uuid : String → Option ℕ
  pub uuid_text : ℕ → String
  pub random_uuid : ℕ → ℕ
  pub fold_login : String → String
  pub jsonb : Bytes → Option Bytes

-- The text of a UUID reads back as that UUID.
pub record UuidLaws (x : External) : Type 0 where
  pub parse-text : (n : ℕ) → x.parse_uuid (x.uuid_text n) ≡ some n

-- A `jsonb` column changes the text but not the value that a reader of JSON finds in it.
pub record JsonbLaws {V : Type 0} (x : External) (reads : Bytes → V) : Type 0 where
  pub same_value : (text stored : Bytes) → x.jsonb text ≡ some stored → reads stored ≡ reads text
