-- ===== src/Server/Examples/Ids.antt =====
-- Stand-ins for the foreign code that the server calls.
use Prim.Native.String.{[], ◌∷◌}
use yandex_go_final_diploma.Prelude.{ℕ, zero, suc, String, ◌≡◌, refl, ap, Option, none, some}
use yandex_go_final_diploma.Server.External.{External, UuidLaws, JsonbLaws}
use yandex_go_final_diploma.Server.Examples.Json.{blank_free, braced, braced-blank_free}

-- The UUID n is a text of n + 1 letters.
abbrev pub letters : ℕ → String
letters zero = []
letters (suc n) = "u" ∷ letters n

abbrev pub count_letters : String → ℕ
count_letters [] = zero
count_letters (c ∷ s) = suc (count_letters s)

abbrev pub parse_letters : String → Option ℕ
parse_letters [] = none
parse_letters (c ∷ s) = some (count_letters s)

abbrev pub sample : External
sample = record {
  parse_uuid = parse_letters;
  uuid_text = λ n. "u" ∷ letters n;
  random_uuid = λ n. n;
  fold_login = λ s. s;
  jsonb = braced;
}

count-letters : (n : ℕ) → count_letters (letters n) ≡ n
count-letters zero = refl
count-letters (suc n) = ap suc (count-letters n)

pub sample-UuidLaws : UuidLaws sample
sample-UuidLaws = record { parse-text = λ n. ap some (count-letters n) }

pub sample-JsonbLaws : JsonbLaws sample blank_free
sample-JsonbLaws = record { same_value = braced-blank_free }
