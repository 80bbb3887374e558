-- ===== src/Rpc/Auth.antt =====
-- grpcserver/interceptor/auth.go, and `withBearer` of grpcclient/client.go.
pub mod Tokens
use Prim.Native.String.{◌++◌, len, slice}
use text.Mathlib.Text.{starts_with}
use text.Mathlib.TextPositions.{starts_with-append, slice-append_right, len-append}
use yandex_go_final_diploma.Prelude.{
  String, Bool, true, false, not, Option, none, some, List, [], ◌∷◌, ◌≡◌, ap, sym, ◌∙◌, any, str_eq,
  if◌then◌else◌,
}
use yandex_go_final_diploma.Exec.{Exec, Result, ok, err, raise}
use yandex_go_final_diploma.Server.Errors.{JwtErr}
use yandex_go_final_diploma.Rpc.{Code, Status, status}

-- The values under "authorization" in a call's metadata, if it has metadata.
abbrev pub Metadata : Type 0
Metadata = Option (List String)

abbrev pub bearer : String
bearer = "Bearer "

unfoldable pub with_bearer : String → Metadata
with_bearer token = some ((bearer ++ token) ∷ [])

-- `strings.TrimPrefix`
unfoldable pub trim_prefix : String → String → String
trim_prefix s prefix = if starts_with s prefix then slice s (len prefix) (len s) else s

unfoldable pub extract_bearer_token : Metadata → Result Status String
unfolding trim_prefix
extract_bearer_token none = err (status Code.unauthenticated)
extract_bearer_token (some []) = err (status Code.unauthenticated)
extract_bearer_token (some (v ∷ _)) =
    if not (starts_with v bearer)
    then err (status Code.unauthenticated)
    else ok (trim_prefix v bearer)

unfoldable pub methods_without_auth : List String
methods_without_auth =
    "/gophkeeper.v1.AuthService/Ping" ∷ "/gophkeeper.v1.AuthService/Register"
    ∷ "/gophkeeper.v1.AuthService/Login" ∷ "/gophkeeper.v1.AuthService/RefreshToken" ∷ []

-- The user's id under its key in the context, none where it was not put in.
abbrev pub ContextUserId : Type 0
ContextUserId = Option String

module _ {S A : Type 0} where
  abbrev pub verified : Result JwtErr String → (ContextUserId → Exec S Status A) → Exec S Status A
  verified (err _) handler = raise (status Code.unauthenticated)
  verified (ok user_id) handler = handler (some user_id)

  -- `auth` of the whole interceptor; `verify` is the `TokenVerifier`.
  unfoldable pub intercept :
      (String → Result JwtErr String)
      → String
      → Metadata
      → (ContextUserId → Exec S Status A)
      → Exec S Status A
  unfolding methods_without_auth extract_bearer_token
  intercept verify method metadata handler =
      if any (str_eq method) methods_without_auth
      then handler none
      else elim (extract_bearer_token metadata) [
        | err e ↦ raise e
        | ok token ↦ verified (verify token) handler
      ]
