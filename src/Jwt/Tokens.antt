-- ===== src/Jwt/Tokens.antt =====
-- The tokens of a pair, at the checks and over time.
use yandex_go_final_diploma.Prelude.{
  ℕ, ◌+◌, String, not, some, ◌≡◌, refl, arith, str_eq, if◌then◌else◌, ltb, Bool-cases, inl, inr,
}
use yandex_go_final_diploma.Exec.{Result, ok, err}
use yandex_go_final_diploma.Server.Errors.{JwtErr, invalid_token, wrong_type}
use yandex_go_final_diploma.Jwt.{
  Library, LibraryLaws, TokenIssuer, claims, key, sign, issue, parse, verify, verify_refresh,
  refresh, type_access, type_refresh,
}

-- A token that is good for `user_id` up to some second, then invalid.
abbrev pub until : ℕ → ℕ → Result JwtErr String → Result JwtErr String
until end now r = if ltb now end then r else err invalid_token

-- The pair issued at `start`, as both checks see it at any time `now`.
pub record Pair (l : Library) (t : TokenIssuer) (user_id access refresh_token : String)
    (start now : ℕ) : Type 0 where
  pub access_as_access : verify l t access now ≡ until (start + t.access_ttl) now (ok user_id)
  pub access_as_refresh :
      verify_refresh l t access now ≡ until (start + t.access_ttl) now (err wrong_type)
  pub refresh_as_refresh :
      verify_refresh l t refresh_token now ≡ until (start + t.refresh_ttl) now (ok user_id)
  pub refresh_as_access :
      verify l t refresh_token now ≡ until (start + t.refresh_ttl) now (err wrong_type)

module _ (l : Library) (laws : LibraryLaws l) (t : TokenIssuer) where
  sign-parse :
      (user_id type expected : String) (ttl start now : ℕ) (token : String)
      → l.sign_hs256 t.secret (claims user_id type ttl start) ≡ some token
      → parse l t token expected now
        ≡ until
            (start + ttl)
            now
            (if not (str_eq type expected) then err wrong_type else ok user_id)
  unfolding parse
  sign-parse user_id type expected ttl start now token signed =
      elim (Bool-cases (ltb now (start + ttl))) [
        | inl e ↦ rw (
          parse,
          e,
          laws.read (key l t) t.secret (claims user_id type ttl start) token now signed refl
              (ground (arith, e)),
        )
        | inr e ↦ rw (
          parse,
          e,
          laws.expired (key l t) t.secret (claims user_id type ttl start) token now signed
              (ground (arith, e)),
        )
      ]

  issued :
      (user_id access refresh_token : String) (start : ℕ)
      → issue l t user_id start ≡ ok (access, refresh_token)
      → (l.sign_hs256 t.secret (claims user_id type_access t.access_ttl start) ≡ some access)
        × (l.sign_hs256 t.secret (claims user_id type_refresh t.refresh_ttl start)
            ≡ some refresh_token)
  unfolding issue sign
  issued user_id access refresh_token start h = ground (arith, h)

  -- The access token of an issued pair proves its user as an access token until it expires, and the
  -- refresh token as a refresh token; each is refused in place of the other, and both are invalid from
  -- the second in which they expire.
  pub issue-Pair :
      (user_id access refresh_token : String) (start now : ℕ)
      → issue l t user_id start ≡ ok (access, refresh_token)
      → Pair l t user_id access refresh_token start now
  unfolding verify verify_refresh
  issue-Pair user_id access refresh_token start now h =
      let (a, r) = issued user_id access refresh_token start h in
      record {
        access_as_access =
            sign-parse user_id type_access type_access t.access_ttl start now access a;
        access_as_refresh =
            sign-parse user_id type_access type_refresh t.access_ttl start now access a;
        refresh_as_refresh =
            sign-parse user_id type_refresh type_refresh t.refresh_ttl start now refresh_token r;
        refresh_as_access =
            sign-parse user_id type_refresh type_access t.refresh_ttl start now refresh_token r;
      }

  -- A refresh token that has not expired is exchanged for a pair of the same user, with new times; an
  -- access token, or a refresh token that has expired, is not exchanged.
  pub refresh-issue :
      (user_id access refresh_token : String) (start now : ℕ)
      → issue l t user_id start ≡ ok (access, refresh_token)
      → (refresh l t refresh_token now
          ≡ (if ltb now (start + t.refresh_ttl) then issue l t user_id now else err invalid_token))
        × (refresh l t access now
            ≡ err (if ltb now (start + t.access_ttl) then wrong_type else invalid_token))
  unfolding refresh
  refresh-issue user_id access refresh_token start now h =
      let (a, r) = issued user_id access refresh_token start h in
      (
        rw
            (
              refresh,
              sign-parse user_id type_refresh type_refresh t.refresh_ttl start now refresh_token r,
            )
            (ground arith),
        rw (refresh, sign-parse user_id type_access type_refresh t.access_ttl start now access a)
            (ground arith),
      )
