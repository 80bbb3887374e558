-- ===== src/Rpc/GrpcClient/Trusted.antt =====
-- The tokens that grpcclient/client.go gets, at interceptor/auth.go in later calls.
use yandex_go_final_diploma.Prelude.{
  true, none, ℕ, ◌+◌, String, false, some, List, [], ◌∷◌, ◌≡◌, inl, inr, refl, sym, ap, ◌∙◌, subst,
  any, str_eq, arith, ltb, if◌then◌else◌, Bool-cases,
}
use yandex_go_final_diploma.Exec.{Exec, Result, ok, err}
use yandex_go_final_diploma.Jwt.{LibraryLaws}
use yandex_go_final_diploma.Jwt.Tokens.{until, issue-Pair}
use yandex_go_final_diploma.Server.Domain.{Bytes}
use yandex_go_final_diploma.Server.Errors.{Err, JwtErr, wrong_type}
use yandex_go_final_diploma.Server.Store.{World, Action}
use yandex_go_final_diploma.Server.Tx.{pool}
use yandex_go_final_diploma.Server.Accounts as Accounts
use yandex_go_final_diploma.Server.Accounts.{Argon2id}
use yandex_go_final_diploma.Server.Accounts.Issued.{
  Issued, login-Issued, register-Issued, refresh_token-Issued,
}
use yandex_go_final_diploma.Client.Errors.{ClientErr}
use yandex_go_final_diploma.Rpc.{Code, Status, status}
use yandex_go_final_diploma.Rpc.Errors.{map_auth_err, map_err}
use yandex_go_final_diploma.Rpc.Auth.{verified, methods_without_auth, intercept}
use yandex_go_final_diploma.Rpc.Auth.Tokens.{intercept-with_bearer}
use yandex_go_final_diploma.Rpc.Handlers.{Handler, respond, responded}
use yandex_go_final_diploma.Rpc.Handlers.Accounts as Handlers
use yandex_go_final_diploma.Rpc.Handlers.Accounts.{
  register_params, register_response, login_params, login_response,
}
use yandex_go_final_diploma.Rpc.Network.{
  Fate, answered, request_lost, reply_lost, Passage, Remote, first_passage, arrival, transport,
  along, passed,
}
use yandex_go_final_diploma.Rpc.GrpcClient.{Site, served, read, reading}
use yandex_go_final_diploma.Rpc.GrpcClient.Accounts.{
  Tokens, LoginResult, tokens_of, login_result_of, served_bare, invoke_bare, register, login,
  refresh_token,
}

read-ok :
    {A B : Type 0} (on_err : Status → ClientErr) (response : A → B) (o : Result Status A) (b : B)
    → read on_err response o ≡ ok b
    → (a : A) × (o ≡ ok a) × (response a ≡ b)
read-ok on_err response (ok a) b k = (a, refl, ground (arith, k))
read-ok on_err response (err s) b k = ground (arith, k)

responded-ok :
    {A B : Type 0} (map_err : Err → Status) (response : A → B) (o : Result Err A) (b : B)
    → responded map_err response o ≡ ok b
    → (a : A) × (o ≡ ok a) × (response a ≡ b)
responded-ok map_err response (ok a) b k = (a, refl, ground (arith, k))
responded-ok map_err response (err s) b k = ground (arith, k)

module _ (site : Site) where
  module _ {A : Type 0} (handler : ℕ → Exec World Status A) (p : Passage) where
    passed-ok :
        (fate : Fate) (r : Remote) (a : A)
        → (passed site.external handler p fate r).0 ≡ ok a
        → (handler p.clock (arrival site.external p r.store)).0 ≡ ok a
    unfolding passed
    passed-ok answered r a k = k
    passed-ok (request_lost f) r a k = ground (arith, k)
    passed-ok (reply_lost f) r a k = ground (arith, k)

    along-ok :
        (passages : List Passage) (r : Remote) (a : A)
        → r.passages ≡ passages
        → first_passage r ≡ some p
        → (along site.external handler passages r).0 ≡ ok a
        → (handler p.clock (arrival site.external p r.store)).0 ≡ ok a
    unfolding along
    along-ok [] r a e on k = ground (arith, k)
    along-ok (q ∷ rest) r a e on k =
        let same : q ≡ p = ground (arith, e, on) in
        passed-ok p.fate (record r { passages = rest }) a
          (subst
            (λ (b : Passage).
              (passed site.external handler b b.fate (record r { passages = rest })).0 ≡ ok a)
            same k)

  served_bare-free :
      {A : Type 0} (method : String) (handler : ℕ → Handler A) (clock : ℕ) (w : World)
      → any (str_eq method) methods_without_auth ≡ true
      → served_bare site method handler clock w ≡ handler clock none w
  unfolding served_bare intercept
  served_bare-free method handler clock w free = rw (intercept, free)

  -- A call without a token that was answered returned what the scenario returned on what it found.
  answered-ok :
      {S A B : Type 0} (method : String) (scenario : ℕ → Action S) (response : S → A) (out : A → B)
      (p : Passage) (r : Remote) (b : B)
      → any (str_eq method) methods_without_auth ≡ true
      → first_passage r ≡ some p
      → (reading map_err out
          (invoke_bare site method (λ now _. respond map_auth_err response (scenario now)))
          r).0
        ≡ ok b
      → (s : S) × ((scenario p.clock (arrival site.external p r.store)).0 ≡ ok s)
        × (out (response s) ≡ b)
  unfolding reading invoke_bare transport respond
  answered-ok {S} {A} method scenario response out p r b free on k =
      let handler : ℕ → Handler A = λ now _. respond map_auth_err response (scenario now) in
      let (a, e, f) = read-ok map_err out (invoke_bare site method handler r).0 b k in
      let g = along-ok (served_bare site method handler) p r.passages r a refl on e in
      let (s, i, j) =
        responded-ok map_auth_err response (scenario p.clock (arrival site.external p r.store)).0 a
          (ap (λ o. o.0)
              (sym (served_bare-free method handler p.clock (arrival site.external p r.store) free))
            ∙ g) in
      (s, i, ap out j ∙ f)

  -- The pair was issued as the call was handled.
  abbrev IssuedAt : Passage → Tokens → Type 0
  IssuedAt p tokens =
      Issued site.tokens site.issuer p.clock tokens.user_id tokens.access_token tokens.refresh_token

  -- The calls that hand out tokens.
  pub data Gets (h : Argon2id) (r : Remote) (tokens : Tokens) : Type 0 where
    registered :
        (salt : Bytes) (name : String) (credential : Bytes)
        → (register site h salt name credential r).0 ≡ ok tokens
        → Gets h r tokens
    logged_in :
        (name : String) (credential : Bytes) (res : LoginResult)
        → (login site h name credential r).0 ≡ ok res
        → res.tokens ≡ tokens
        → Gets h r tokens
    refreshed :
        (token : String) (res : LoginResult)
        → (refresh_token site token r).0 ≡ ok res
        → res.tokens ≡ tokens
        → Gets h r tokens

  Gets-IssuedAt :
      (h : Argon2id) (p : Passage) (r : Remote) (tokens : Tokens)
      → first_passage r ≡ some p
      → Gets h r tokens
      → IssuedAt p tokens
  unfolding register login refresh_token Handlers.register Handlers.login Handlers.refresh_token
      register_params login_params register_response login_response tokens_of login_result_of
  Gets-IssuedAt h p r tokens on (registered salt name credential k) =
      let params : Accounts.RegisterParams = record {
        login = name;
        login_credential = credential;
      } in
      let (s, e, f) =
        answered-ok "/gophkeeper.v1.AuthService/Register"
          (λ now. Accounts.register site.external h site.tokens site.issuer pool params salt now)
          register_response tokens_of p r tokens (unfold any methods_without_auth in refl) on k in
      subst (IssuedAt p) f (
        register-Issued site.external h site.tokens site.issuer p.clock params salt
          (arrival site.external p r.store) s e)
  Gets-IssuedAt h p r tokens on (logged_in name credential res k same) =
      let params : Accounts.LoginParams = record { login = name; login_credential = credential } in
      let (s, e, f) =
        answered-ok "/gophkeeper.v1.AuthService/Login"
          (λ now. Accounts.login site.external h site.tokens site.issuer pool params now)
          login_response login_result_of p r res (unfold any methods_without_auth in refl) on k in
      subst (IssuedAt p) (ap (λ b. b.tokens) f ∙ same) (
        login-Issued site.external h site.tokens site.issuer p.clock params
          (arrival site.external p r.store) s e)
  Gets-IssuedAt h p r tokens on (refreshed token res k same) =
      let (s, e, f) =
        answered-ok "/gophkeeper.v1.AuthService/RefreshToken"
          (λ now. Accounts.refresh_token site.external site.tokens site.issuer pool token now)
          login_response login_result_of p r res (unfold any methods_without_auth in refl) on k in
      subst (IssuedAt p) (ap (λ b. b.tokens) f ∙ same) (
        refresh_token-Issued site.external site.tokens site.issuer p.clock token
          (arrival site.external p r.store) s e)

  verified-until :
      {A : Type 0} (end clock : ℕ) (user_id : String) (handler : Handler A) (w : World)
      → verified (until end clock (ok user_id)) handler w ≡ (
          if ltb clock end
          then handler (some user_id) w
          else (err (status Code.unauthenticated), w))
  verified-until end clock user_id handler w = elim (Bool-cases (ltb clock end)) [
    | inl e ↦ rw e
    | inr e ↦ rw e
  ]

  verified-never :
      {A : Type 0} (end clock : ℕ) (e : JwtErr) (handler : Handler A) (w : World)
      → verified (until end clock (err e)) handler w ≡ (err (status Code.unauthenticated), w)
  verified-never end clock e handler w = elim (Bool-cases (ltb clock end)) [
    | inl f ↦ rw f
    | inr f ↦ rw f
  ]

  -- If a signed token reads back as documented: the tokens that a registration, a login or an
  -- exchange over the network handed out are good for this in later calls of the methods that want a
  -- token. Until its time is up, counted from the clock that the call met, a call with the access token
  -- reaches its handler as the user of the answer, and then it is refused as unauthenticated, as a
  -- call with the refresh token is at any time; a refused call changes nothing.
  pub Gets-Trusted :
      (laws : LibraryLaws site.tokens) (h : Argon2id) (p : Passage) (r : Remote) (tokens : Tokens)
      → first_passage r ≡ some p
      → Gets h r tokens
      → {A : Type 0} (method : String) (handler : Handler A) (clock : ℕ) (w : World)
      → any (str_eq method) methods_without_auth ≡ false
      → (served site method tokens.access_token handler clock w ≡ (
          if ltb clock (p.clock + site.issuer.access_ttl)
          then handler (some tokens.user_id) w
          else (err (status Code.unauthenticated), w)))
        × (served site method tokens.refresh_token handler clock w
            ≡ (err (status Code.unauthenticated), w))
  unfolding served
  Gets-Trusted laws h p r tokens on got method handler clock w wants_token =
      let pair =
        issue-Pair site.tokens laws site.issuer tokens.user_id tokens.access_token
          tokens.refresh_token p.clock clock (Gets-IssuedAt h p r tokens on got) in
      (
        intercept-with_bearer _ method tokens.access_token handler w wants_token
            ∙ ap (λ v. verified v handler w) pair.access_as_access
            ∙ verified-until _ clock tokens.user_id handler w,
        intercept-with_bearer _ method tokens.refresh_token handler w wants_token
            ∙ ap (λ v. verified v handler w) pair.refresh_as_access
            ∙ verified-never _ clock wrong_type handler w,
      )
