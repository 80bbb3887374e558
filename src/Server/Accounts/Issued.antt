-- ===== src/Server/Accounts/Issued.antt =====
-- The tokens in the answers of a registration, a login and an exchange of tokens.
use yandex_go_final_diploma.Prelude.{
  ℕ, String, true, false, ◌≡◌, sym, ◌∙◌, subst, inl, inr, arith, Option-cases, find,
}
use yandex_go_final_diploma.Exec.{ok}
use yandex_go_final_diploma.Exec.Returns.{Result-cases}
use yandex_go_final_diploma.Server.Domain.{Bytes}
use yandex_go_final_diploma.Server.External.{External}
use yandex_go_final_diploma.Server.Store.{Db, UserRow, World}
use yandex_go_final_diploma.Server.Store.Accounts.{find_login, with_login}
use yandex_go_final_diploma.Server.Store.Queries.{with_user_id}
use yandex_go_final_diploma.Server.Tx.{pool}
use yandex_go_final_diploma.Server.Tx.Runs.{Serves-cases}
use yandex_go_final_diploma.Server.Secrets.Spec.{unless}
use yandex_go_final_diploma.Server.Accounts.{
  Argon2id, RegisterParams, RegisterResult, LoginParams, LoginResult, register, login,
  refresh_token,
}
use yandex_go_final_diploma.Server.Accounts.Spec
use yandex_go_final_diploma.Server.Accounts.Serves.{Serves-register}
use yandex_go_final_diploma.Server.Accounts.Admits.{Serves-login}
use yandex_go_final_diploma.Server.Accounts.Exchanges.{Serves-refresh_token}
use yandex_go_final_diploma.Jwt.{Library, TokenIssuer, issue, verify_refresh}

-- The pair was issued at this time for this user.
abbrev pub Issued : Library → TokenIssuer → ℕ → String → String → String → Type 0
Issued l t now user_id access refresh = issue l t user_id now ≡ ok (access, refresh)

module _ (l : Library) (t : TokenIssuer) (now : ℕ) where
  admitted-Issued :
      (user_id : String) (row : UserRow) (res : LoginResult)
      → Spec.admitted user_id row (issue l t user_id now) ≡ ok res
      → Issued l t now res.user_id res.access_token res.refresh_token
  unfolding Spec.admitted
  admitted-Issued user_id row res k = elim (Result-cases (issue l t user_id now)) [
    | inl (e, f) ↦ ground (arith, f, k)
    | inr ((a, b), f) ↦
        let same : user_id ≡ res.user_id = ground (arith, f, k) in
        subst (λ u. issue l t u now ≡ ok (res.access_token, res.refresh_token)) same
          (ground (arith, f, k))
  ]

  registered-Issued :
      (user_id : String) (res : RegisterResult)
      → Spec.registered user_id (issue l t user_id now) ≡ ok res
      → Issued l t now res.user_id res.access_token res.refresh_token
  unfolding Spec.registered
  registered-Issued user_id res k = elim (Result-cases (issue l t user_id now)) [
    | inl (e, f) ↦ ground (arith, f, k)
    | inr ((a, b), f) ↦
        let same : user_id ≡ res.user_id = ground (arith, f, k) in
        subst (λ u. issue l t u now ≡ ok (res.access_token, res.refresh_token)) same
          (ground (arith, f, k))
  ]

module _ (x : External) (h : Argon2id) (l : Library) (t : TokenIssuer) (now : ℕ) where
  check-Issued :
      (password : Bytes) (row : UserRow) (res : LoginResult)
      → Spec.check x h l t password row now ≡ ok res
      → Issued l t now res.user_id res.access_token res.refresh_token
  unfolding Spec.check
  check-Issued password row res k = elim (Option-cases (h.compare password row.auth_hash)) [
    | inl e ↦ ground (arith, e, k)
    | inr (false, e) ↦ ground (arith, e, k)
    | inr (true, e) ↦ admitted-Issued l t now (x.uuid_text row.id) row res (ground (arith, e, k))
  ]

  login-decided :
      (p : LoginParams) (d : Db) (res : LoginResult)
      → (Spec.login x h l t p now d).0 ≡ ok res
      → Issued l t now res.user_id res.access_token res.refresh_token
  unfolding Spec.login unless find_login
  login-decided p d res k = elim (Option-cases (find (with_login x p.login) d.users)) [
    | inl e ↦ ground (arith, e, k)
    | inr (row, e) ↦ check-Issued p.login_credential row res (ground (arith, e, k))
  ]

  pub login-Issued :
      (p : LoginParams) (w : World) (res : LoginResult)
      → (login x h l t pool p now w).0 ≡ ok res
      → Issued l t now res.user_id res.access_token res.refresh_token
  login-Issued p w res k = elim (Serves-cases (Serves-login x h l t p now) w) [
    | inl (_, _, f, _) ↦ cc (f, k)
    | inr (same, _) ↦ login-decided p w.store res (sym same ∙ k)
  ]

  enter-Issued :
      (name hash : String) (d : Db) (res : RegisterResult)
      → (Spec.enter x l t name hash now d).0 ≡ ok res
      → Issued l t now res.user_id res.access_token res.refresh_token
  unfolding Spec.enter
  enter-Issued name hash d res k =
      elim (Option-cases (find (with_user_id (x.random_uuid d.seed)) d.users)) [
        | inr (_, e) ↦ ground (arith, e, k)
        | inl e ↦ elim (Option-cases (find (with_login x name) d.users)) [
          | inr (_, f) ↦ ground (arith, e, f, k)
          | inl f ↦
              registered-Issued l t now (x.uuid_text (x.random_uuid d.seed)) res
                (ground (arith, e, f, k))
        ]
      ]

  register-decided :
      (p : RegisterParams) (salt : Bytes) (d : Db) (res : RegisterResult)
      → (Spec.register x h l t p salt now d).0 ≡ ok res
      → Issued l t now res.user_id res.access_token res.refresh_token
  unfolding Spec.register unless
  register-decided p salt d res k = elim (Option-cases (h.create_hash salt p.login_credential)) [
    | inl e ↦ ground (arith, e, k)
    | inr (hash, e) ↦ enter-Issued p.login hash d res (ground (arith, e, k))
  ]

  pub register-Issued :
      (p : RegisterParams) (salt : Bytes) (w : World) (res : RegisterResult)
      → (register x h l t pool p salt now w).0 ≡ ok res
      → Issued l t now res.user_id res.access_token res.refresh_token
  register-Issued p salt w res k = elim (Serves-cases (Serves-register x h l t p salt now) w) [
    | inl (_, _, f, _) ↦ cc (f, k)
    | inr (same, _) ↦ register-decided p salt w.store res (sym same ∙ k)
  ]

module _ (x : External) (l : Library) (t : TokenIssuer) (now : ℕ) where
  refresh-decided :
      (token : String) (d : Db) (res : LoginResult)
      → (Spec.refresh_token x l t token now d).0 ≡ ok res
      → Issued l t now res.user_id res.access_token res.refresh_token
  unfolding Spec.refresh_token
  refresh-decided token d res k = elim (Result-cases (verify_refresh l t token now)) [
    | inl (e, f) ↦ ground (arith, f, k)
    | inr (user_id, f) ↦ elim (Option-cases (x.parse_uuid user_id)) [
      | inl g ↦ ground (arith, f, g, k)
      | inr (uid, g) ↦ elim (Option-cases (find (with_user_id uid) d.users)) [
        | inl e ↦ ground (arith, f, g, e, k)
        | inr (row, e) ↦ admitted-Issued l t now user_id row res (ground (arith, f, g, e, k))
      ]
    ]
  ]

  pub refresh_token-Issued :
      (token : String) (w : World) (res : LoginResult)
      → (refresh_token x l t pool token now w).0 ≡ ok res
      → Issued l t now res.user_id res.access_token res.refresh_token
  refresh_token-Issued token w res k =
      elim (Serves-cases (Serves-refresh_token x l t token now) w) [
        | inl (_, _, f, _) ↦ cc (f, k)
        | inr (same, _) ↦ refresh-decided token w.store res (sym same ∙ k)
      ]
