-- ===== src/Server/Accounts/Serves.antt =====
-- A registration serves its decision.
use yandex_go_final_diploma.Prelude.{
  ℕ, String, true, false, none, some, ◌≡◌, refl, Option, Bool, Option-cases, inl, inr, arith, [],
  ◌∷◌, ◌++◌, ◌+◌, find,
}
use yandex_go_final_diploma.Exec.{Exec, Result, ok, err, pure, refuse_if, ◌>>=◌, ◌>>◌}
use yandex_go_final_diploma.Server.Domain.{Bytes, User}
use yandex_go_final_diploma.Server.Errors.{
  Err, auth, JwtErr, hash_failure, empty_login, empty_password,
}
use yandex_go_final_diploma.Server.External.{External}
use yandex_go_final_diploma.Server.Store.{Db, Query, atomic, keep_on_error}
use yandex_go_final_diploma.Server.Store.Accounts
use yandex_go_final_diploma.Server.Store.Accounts.{find_login, with_login}
use yandex_go_final_diploma.Server.Store.Queries.{with_user_id}
use yandex_go_final_diploma.Server.Tx.{pool, alone}
use yandex_go_final_diploma.Server.Tx.Runs.{Serves, Serves-guard, Serves-as}
use yandex_go_final_diploma.Server.Tx.Steps.{Serves-look, Serves-end, Serves-wait}
use yandex_go_final_diploma.Server.Repo.Users as Repo
use yandex_go_final_diploma.Server.Secrets.{is_empty, is_empty_text}
use yandex_go_final_diploma.Server.Secrets.Spec.{unless}
use yandex_go_final_diploma.Server.Accounts.{
  Argon2id, RegisterParams, RegisterResult, acquire_hash_slot, hashed, issued, hash_password,
  register, login,
}
use yandex_go_final_diploma.Server.Accounts.Spec
use yandex_go_final_diploma.Server.Accounts.Refines.{Serves-hashed, hashed-reads, Serves-create}
use yandex_go_final_diploma.Jwt.{Library, TokenIssuer, issue}

-- What the repository stores of a registration.
abbrev entered : String → String → User
entered login hash = record {
  id = "";
  login = login;
  auth_hash = hash;
  enc_kdf_salt = [];
  enc_kdf_params = [];
  enc_master_key = [];
}

-- What stands behind the last statement.
abbrev registering :
    {S : Type 0} → String → Result JwtErr (String × String) → Exec S Err RegisterResult
registering user_id r = do
  (access, refresh) ← issued r
  pure (record { user_id = user_id; access_token = access; refresh_token = refresh })

registering-registered :
    {S : Type 0} (user_id : String) (r : Result JwtErr (String × String)) (s : S)
    → registering user_id r s ≡ (Spec.registered user_id r, s)
unfolding issued Spec.registered
registering-registered user_id (err e) s = refl
registering-registered user_id (ok tokens) s = refl

-- A guard of the code and a check of the specification.
pub guarded :
    {A : Type 0} (b : Bool) (e : Err) (m k : Query A)
    → ((d : Db) → m d ≡ k d)
    → (d : Db) → (refuse_if b e >> m) d ≡ unless b e k d
unfolding refuse_if unless
guarded true e m k h d = refl
guarded false e m k h d = h d

module _ (x : External) (h : Argon2id) (l : Library) (t : TokenIssuer) where
  -- A registration on the database alone.
  abbrev plain_register : RegisterParams → Bytes → ℕ → Query RegisterResult
  plain_register p salt now = do
    refuse_if (is_empty_text p.login) (auth empty_login)
    refuse_if (is_empty p.login_credential) (auth empty_password)
    hash ← hashed (h.create_hash salt p.login_credential)
    user ← Repo.create x alone (entered p.login hash)
    registering user.id (issue l t user.id now)

  create-free :
      (login hash : String) (d : Db)
      → find (with_user_id (x.random_uuid d.seed)) d.users ≡ none
      → find (with_login x login) d.users ≡ none
      → Repo.create x alone (entered login hash) d ≡ (
        ok (Repo.map_user x (Spec.new_user x login hash d)),
        record d { users = d.users ++ Spec.new_user x login hash d ∷ []; seed = d.seed + 1 },
      )
  unfolding Repo.create Repo.created atomic keep_on_error Accounts.create_user
  create-free login hash d e f = ground (arith, e, f)

  enter-same :
      (login hash : String) (now : ℕ) (d : Db)
      → (Repo.create x alone (entered login hash) >>= λ user.
            registering user.id (issue l t user.id now))
          d
        ≡ Spec.enter x l t login hash now d
  enter-same login hash now d =
      elim (Option-cases (find (with_user_id (x.random_uuid d.seed)) d.users)) [
        | inr (r, e) ↦
            unfold Spec.enter Repo.create Repo.created atomic keep_on_error Accounts.create_user in
            ground (arith, e)
        | inl e ↦ elim (Option-cases (find (with_login x login) d.users)) [
          | inr (r, f) ↦
              unfold Spec.enter Repo.create Repo.created atomic keep_on_error
                Accounts.create_user in
              ground (arith, e, f)
          | inl f ↦
              unfold Spec.enter Repo.map_user in
              rw (create-free login hash d e f, Spec.enter, e, f) (registering-registered _ _ _)
        ]
      ]

  hash_and_enter :
      (login : String) (now : ℕ) (o : Option String) (d : Db)
      → (hashed o >>= λ hash. Repo.create x alone (entered login hash) >>= λ user.
            registering user.id (issue l t user.id now))
          d
        ≡ elim o [ none ↦ (err hash_failure, d) | some hash ↦ Spec.enter x l t login hash now d ]
  unfolding hashed
  hash_and_enter login now none d = refl
  hash_and_enter login now (some hash) d = enter-same login hash now d

  plain_register-same :
      (p : RegisterParams) (salt : Bytes) (now : ℕ) (d : Db)
      → plain_register p salt now d ≡ Spec.register x h l t p salt now d
  unfolding Spec.register
  plain_register-same p salt now d =
      guarded _ _ _ _
        (guarded _ _ _ _ (hash_and_enter p.login now (h.create_hash salt p.login_credential))) d

  pub Serves-register :
      (p : RegisterParams) (salt : Bytes) (now : ℕ)
      → Serves (register x h l t pool p salt now) (Spec.register x h l t p salt now)
  unfolding register hash_password
  Serves-register p salt now =
      Serves-as {plain = plain_register p salt now}
        (Serves-guard (is_empty_text p.login) (auth empty_login) _ _ (
          Serves-guard (is_empty p.login_credential) (auth empty_password) _ _ (
            Serves-look _ (hashed (h.create_hash salt p.login_credential)) _ _ (hashed-reads _)
              (Serves-wait acquire_hash_slot _ _ (λ w. unfold acquire_hash_slot in refl)
                (Serves-hashed _))
              (λ hash.
                Serves-end _ _ _ _ (λ user. Spec.registered user.id (issue l t user.id now))
                  (λ user w. registering-registered user.id _ w)
                  (λ user d. registering-registered user.id _ d)
                  (Serves-create x (entered p.login hash))))))
        (plain_register-same p salt now)
