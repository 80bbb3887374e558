-- ===== src/Jwt/Examples.antt =====
-- A pair of tokens at concrete times, with a library whose tokens are not secret.
pub mod Plain
use Plain.{plain, plain-LibraryLaws}
use yandex_go_final_diploma.Prelude.{
  ℕ, ◌<◌, ◌≤◌, String, Option, none, some, ◌≡◌, refl, List, [], ◌∷◌, arith, ltb, if◌then◌else◌,
}
use yandex_go_final_diploma.Exec.{Result, ok, err}
use yandex_go_final_diploma.Server.Domain.{Bytes}
use yandex_go_final_diploma.Server.Errors.{invalid_token, wrong_type}
use yandex_go_final_diploma.Jwt.{
  Library, LibraryLaws, TokenIssuer, Claims, Method, hmac, claims, issue, sign, refresh,
  type_access, type_refresh,
}
use yandex_go_final_diploma.Jwt.Tokens.{Pair, issue-Pair, refresh-issue}

abbrev pub issuer : TokenIssuer
issuer = record { secret = 1 ∷ 2 ∷ []; access_ttl = 5; refresh_ttl = 20 }

abbrev access_token : String
access_token = "auuu.uuuuuuuu.anna"

abbrev refresh_token : String
refresh_token = "ruuu.uuuuuuuuuuuuuuuuuuuuuuu.anna"

issued_at_3 : issue plain issuer "anna" 3 ≡ ok (access_token, refresh_token)
unfolding issue sign
issued_at_3 = refl

issue-Pair_example : Pair plain issuer "anna" access_token refresh_token 3 8
issue-Pair_example =
    issue-Pair plain plain-LibraryLaws issuer "anna" access_token refresh_token 3 8 issued_at_3

refresh-issue_example :
    (refresh plain issuer refresh_token 10
      ≡ (if ltb 10 23 then issue plain issuer "anna" 10 else err invalid_token))
    × (refresh plain issuer access_token 10 ≡ err (if ltb 10 8 then wrong_type else invalid_token))
refresh-issue_example =
    refresh-issue plain plain-LibraryLaws issuer "anna" access_token refresh_token 3 10 issued_at_3
