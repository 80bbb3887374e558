-- ===== src/Jwt.antt =====
-- pkg/jwt: access and refresh tokens.
pub mod Tokens
pub mod Examples
use yandex_go_final_diploma.Prelude.{
  ℕ, ◌+◌, ◌<◌, ◌≤◌, String, Bool, true, false, not, Option, none, some, ◌≡◌, str_eq, if◌then◌else◌,
}
use yandex_go_final_diploma.Exec.{Result, ok, err}
use yandex_go_final_diploma.Server.Domain.{Bytes}
use yandex_go_final_diploma.Server.Errors.{JwtErr, invalid_token, wrong_type, sign_failure}

-- `tokenType string`
abbrev pub type_access : String
type_access = "access"

abbrev pub type_refresh : String
type_refresh = "refresh"

-- `claims` with the registered claims that the code sets. Times are whole seconds, as in a
-- `NumericDate`.
pub record Claims : Type 0 where
  pub subject : String
  pub issued_at : ℕ
  pub expires_at : ℕ
  pub type : String

-- What `token.Method` is: of the HMAC family, or not.
pub data Method : Type 0 where
  hmac other : Method

-- golang-jwt: `SignedString` with HS256, and `ParseWithClaims`, which asks its callback for the key
-- that goes with the token's method and knows the time. `none` is an error or an invalid token.
pub record Library : Type 0 where
  pub sign_hs256 : Bytes → Claims → Option String
  pub parse_with_claims : (Method → Option Bytes) → ℕ → String → Option Claims

-- A signed token reads back with its key, before it expires and not from then on.
pub record LibraryLaws (l : Library) : Type 0 where
  pub read :
      (key : Method → Option Bytes) (secret : Bytes) (c : Claims) (token : String) (now : ℕ)
      → l.sign_hs256 secret c ≡ some token
      → key hmac ≡ some secret
      → now < c.expires_at
      → l.parse_with_claims key now token ≡ some c
  pub expired :
      (key : Method → Option Bytes) (secret : Bytes) (c : Claims) (token : String) (now : ℕ)
      → l.sign_hs256 secret c ≡ some token
      → c.expires_at ≤ now
      → l.parse_with_claims key now token ≡ none

pub record TokenIssuer : Type 0 where
  pub secret : Bytes
  pub access_ttl : ℕ
  pub refresh_ttl : ℕ

-- What `sign` puts into a token.
abbrev pub claims : String → String → ℕ → ℕ → Claims
claims user_id type ttl now = record {
  subject = user_id;
  issued_at = now;
  expires_at = now + ttl;
  type = type;
}

module _ (l : Library) (t : TokenIssuer) where
  unfoldable pub sign : String → String → ℕ → ℕ → Result JwtErr String
  sign user_id type ttl now = elim (l.sign_hs256 t.secret (claims user_id type ttl now)) [
    | none ↦ err sign_failure
    | some token ↦ ok token
  ]

  unfoldable pub issue : String → ℕ → Result JwtErr (String × String)
  unfolding sign
  issue user_id now = elim (sign user_id type_access t.access_ttl now) [
    | err e ↦ err e
    | ok access ↦ elim (sign user_id type_refresh t.refresh_ttl now) [
      | err e ↦ err e
      | ok refresh ↦ ok (access, refresh)
    ]
  ]

  -- The callback of `ParseWithClaims`.
  abbrev pub key : Method → Option Bytes
  key hmac = some t.secret
  key other = none

  unfoldable pub parse : String → String → ℕ → Result JwtErr String
  parse token expected now = elim (l.parse_with_claims key now token) [
    | none ↦ err invalid_token
    | some c ↦ if not (str_eq c.type expected) then err wrong_type else ok c.subject
  ]

  unfoldable pub verify : String → ℕ → Result JwtErr String
  unfolding parse
  verify token now = parse token type_access now

  unfoldable pub verify_refresh : String → ℕ → Result JwtErr String
  unfolding parse
  verify_refresh token now = parse token type_refresh now

  unfoldable pub refresh : String → ℕ → Result JwtErr (String × String)
  unfolding parse issue
  refresh token now = elim (parse token type_refresh now) [
    | err e ↦ err e
    | ok user_id ↦ issue user_id now
  ]
