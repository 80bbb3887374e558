-- ===== src/Rpc/Auth/Tokens.antt =====
-- grpcclient/client.go `withBearer` against interceptor/auth.go `extractBearerToken`.
use Prim.Native.String.{◌++◌, len, slice}
use text.Mathlib.TextPositions.{starts_with-append, slice-append_right, len-append}
use yandex_go_final_diploma.Prelude.{String, false, ◌≡◌, refl, ap, ◌∙◌, any, str_eq}
use yandex_go_final_diploma.Exec.{Exec, Result, ok}
use yandex_go_final_diploma.Server.Errors.{JwtErr}
use yandex_go_final_diploma.Rpc.{Status}
use yandex_go_final_diploma.Rpc.Auth.{
  bearer, with_bearer, extract_bearer_token, methods_without_auth, ContextUserId, verified,
  intercept,
}

slice-append_rest : (s t : String) → slice (s ++ t) (len s) (len (s ++ t)) ≡ t
slice-append_rest s t = ap (slice (s ++ t) (len s)) (len-append s t) ∙ slice-append_right s t

-- The token that the client puts in is the one that the server takes out.
pub extract-with_bearer : (token : String) → extract_bearer_token (with_bearer token) ≡ ok token
unfolding extract_bearer_token with_bearer
extract-with_bearer token =
    rw (starts_with-append bearer token) (ap ok (slice-append_rest bearer token))

-- A call of a method that wants a token is made as the user whom the token proves.
pub intercept-with_bearer :
    {S A : Type 0} (verify : String → Result JwtErr String) (method token : String)
    (handler : ContextUserId → Exec S Status A) (s : S)
    → any (str_eq method) methods_without_auth ≡ false
    → intercept verify method (with_bearer token) handler s ≡ verified (verify token) handler s
unfolding intercept
intercept-with_bearer verify method token handler s h = rw (h, extract-with_bearer token) refl
