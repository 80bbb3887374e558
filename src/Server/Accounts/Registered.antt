-- ===== src/Server/Accounts/Registered.antt =====
-- What a registration that was acknowledged leaves in the table, and what a login makes of it.
use yandex_go_final_diploma.Prelude.{
  ℕ, String, true, false, ◌≡◌, refl, sym, ◌∙◌, ap, subst, inl, inr, arith, some, Option-cases, find,
  str_eq, Bool-cases, eq_iff,
}
use yandex_go_final_diploma.Exec.{Result, ok, err}
use yandex_go_final_diploma.Server.Domain.{Bytes}
use yandex_go_final_diploma.Server.Errors.{Err, is_fault, auth, invalid_credentials}
use yandex_go_final_diploma.Server.External.{External}
use yandex_go_final_diploma.Server.Store.{Db, UserRow, World}
use yandex_go_final_diploma.Server.Store.Accounts.{find_login, with_login}
use yandex_go_final_diploma.Server.Store.Queries.{with_user_id}
use yandex_go_final_diploma.Server.Tx.{pool}
use yandex_go_final_diploma.Server.Tx.Runs.{Serves-cases}
use yandex_go_final_diploma.Server.Secrets.{is_empty, is_empty_text}
use yandex_go_final_diploma.Server.Secrets.Spec.{unless}
use yandex_go_final_diploma.Server.Accounts.{
  Argon2id, RegisterParams, RegisterResult, LoginParams, register, login,
}
use yandex_go_final_diploma.Server.Accounts.Spec
use yandex_go_final_diploma.Server.Accounts.Serves.{Serves-register}
use yandex_go_final_diploma.Server.Accounts.Admits.{Serves-login}
use yandex_go_final_diploma.Server.Accounts.History.{Stays, find-new}
use yandex_go_final_diploma.Jwt.{Library, TokenIssuer, issue}

-- The login is in the table, with this id and hash.
pub record Entered (x : External) (login hash user_id : String) (d : Db) : Type 0 where
  pub row : UserRow
  pub found : find_login x login d ≡ some row
  pub id : x.uuid_text row.id ≡ user_id
  pub hash_of : row.auth_hash ≡ hash

module _ (x : External) (l : Library) (t : TokenIssuer) where
  registered-id :
      (user_id : String) (o : Result _ (String × String)) (r : RegisterResult)
      → Spec.registered user_id o ≡ ok r
      → user_id ≡ r.user_id
  unfolding Spec.registered
  registered-id user_id (ok (a, b)) r h = ground (arith, h)
  registered-id user_id (err e) r h = cc

  enter-Entered :
      (login hash : String) (now : ℕ) (r : RegisterResult) (d : Db)
      → (Spec.enter x l t login hash now d).0 ≡ ok r
      → Entered x login hash r.user_id (Spec.enter x l t login hash now d).1
  unfolding Spec.enter
  enter-Entered login hash now r d h =
      elim (Option-cases (find (with_user_id (x.random_uuid d.seed)) d.users)) [
        | inr (_, e) ↦ ground (arith, e, h)
        | inl e ↦ elim (Option-cases (find (with_login x login) d.users)) [
          | inr (_, f) ↦ ground (arith, e, f, h)
          | inl f ↦
              rw (Spec.enter, e, f)
                (record {
                  row = Spec.new_user x login hash d;
                  found =
                      unfold find_login in
                      find-new (with_login x login) d.users (Spec.new_user x login hash d) f
                        ((eq_iff (x.fold_login login) (x.fold_login login)).1 refl);
                  id =
                      registered-id _ (issue l t (x.uuid_text (x.random_uuid d.seed)) now) r
                        (ground (arith, e, f, h));
                  hash_of = refl;
                })
        ]
      ]

-- What a call returned: the answer, or a fault of the environment.
pub data Told {A : Type 0} (answer res : Result Err A) : Type 0 where
  faulted : (e : Err) → is_fault e ≡ true → res ≡ err e → Told answer res
  answered : res ≡ answer → Told answer res

pub find_login-fold :
    (x : External) (a b : String) (d : Db)
    → x.fold_login a ≡ x.fold_login b
    → find_login x a d ≡ find_login x b d
unfolding find_login
find_login-fold x a b d h = ap (λ k. find (λ r. str_eq (x.fold_login r.login) k) d.users) h

module _ (x : External) (h : Argon2id) (l : Library) (t : TokenIssuer) where
  -- A registration whose parameters are there and whose hash was made is an entry.
  register-enter :
      (p : RegisterParams) (salt : Bytes) (now : ℕ) (hash : String) (d : Db)
      → is_empty_text p.login ≡ false
      → is_empty p.login_credential ≡ false
      → h.create_hash salt p.login_credential ≡ some hash
      → Spec.register x h l t p salt now d ≡ Spec.enter x l t p.login hash now d
  unfolding Spec.register unless
  register-enter p salt now hash d a b e = rw (a, b, e)

  decided-Entered :
      (p : RegisterParams) (salt : Bytes) (now : ℕ) (hash : String) (r : RegisterResult) (d : Db)
      → h.create_hash salt p.login_credential ≡ some hash
      → (Spec.register x h l t p salt now d).0 ≡ ok r
      → Entered x p.login hash r.user_id (Spec.register x h l t p salt now d).1
  unfolding Spec.register unless
  decided-Entered p salt now hash r d e k = elim (Bool-cases (is_empty_text p.login)) [
    | inl a ↦ ground (arith, a, k)
    | inr a ↦ elim (Bool-cases (is_empty p.login_credential)) [
      | inl b ↦ ground (arith, a, b, k)
      | inr b ↦
          subst (λ s. s.0 ≡ ok r → Entered x p.login hash r.user_id s.1)
            (sym (register-enter p salt now hash d a b e))
            (enter-Entered x l t p.login hash now r d) k
    ]
  ]

  register-credential :
      (p : RegisterParams) (salt : Bytes) (now : ℕ) (r : RegisterResult) (d : Db)
      → (Spec.register x h l t p salt now d).0 ≡ ok r
      → is_empty p.login_credential ≡ false
  unfolding Spec.register unless
  register-credential p salt now r d k = elim (Bool-cases (is_empty p.login_credential)) [
    | inl b ↦ ground (arith, b, k)
    | inr b ↦ b
  ]

  pub register-Entered :
      (p : RegisterParams) (salt : Bytes) (now : ℕ) (hash : String) (r : RegisterResult) (w : World)
      → h.create_hash salt p.login_credential ≡ some hash
      → (register x h l t pool p salt now w).0 ≡ ok r
      → Entered x p.login hash r.user_id (register x h l t pool p salt now w).1.store
        × (is_empty p.login_credential ≡ false)
  register-Entered p salt now hash r w e k =
      elim (Serves-cases (Serves-register x h l t p salt now) w) [
        | inl (_, _, f, _) ↦ cc (f, k)
        | inr (same, left) ↦ (
          subst (Entered x p.login hash r.user_id) (sym left)
              (decided-Entered p salt now hash r w.store e (sym same ∙ k)),
          register-credential p salt now r w.store (sym same ∙ k),
        )
      ]

pub Stays-Entered :
    (x : External) (login other hash user_id : String) (d d' : Db)
    → x.fold_login other ≡ x.fold_login login
    → Stays x d d'
    → Entered x login hash user_id d
    → Entered x other hash user_id d'
Stays-Entered x login other hash user_id d d' same h e =
    let (row, found, id, kept) = h.at login e.row e.found in
    record {
      row = row;
      found = find_login-fold x other login d' same ∙ found;
      id = ap x.uuid_text id ∙ e.id;
      hash_of = kept ∙ e.hash_of;
    }

module _ (x : External) (h : Argon2id) (l : Library) (t : TokenIssuer) where
  -- What a login comes to where the table has it.
  login-check :
      (p : LoginParams) (later : ℕ) (row : UserRow) (d : Db)
      → is_empty_text p.login ≡ false
      → is_empty p.login_credential ≡ false
      → find_login x p.login d ≡ some row
      → Spec.login x h l t p later d ≡ (Spec.check x h l t p.login_credential row later, d)
  unfolding Spec.login unless
  login-check p later row d a b e = rw (a, b, e)

  -- Whatever the environment does, a login comes to the check of its credential, or to a fault.
  pub login-Told :
      (p : LoginParams) (later : ℕ) (row : UserRow) (w : World)
      → is_empty_text p.login ≡ false
      → is_empty p.login_credential ≡ false
      → find_login x p.login w.store ≡ some row
      → Told (Spec.check x h l t p.login_credential row later) (login x h l t pool p later w).0
  login-Told p later row w a b e = elim (Serves-cases (Serves-login x h l t p later) w) [
    | inl (y, f, told, _) ↦ Told.faulted y f told
    | inr (same, _) ↦ Told.answered (same ∙ ap (λ s. s.0) (login-check p later row w.store a b e))
  ]

  pub check-own :
      (password : Bytes) (row : UserRow) (later : ℕ)
      → h.compare password row.auth_hash ≡ some true
      → Spec.check x h l t password row later
        ≡ Spec.admitted (x.uuid_text row.id) row (issue l t (x.uuid_text row.id) later)
  unfolding Spec.check
  check-own password row later e = rw (Spec.check, e)

  pub check-other :
      (password : Bytes) (row : UserRow) (later : ℕ)
      → h.compare password row.auth_hash ≡ some false
      → Spec.check x h l t password row later ≡ err (auth invalid_credentials)
  unfolding Spec.check
  check-other password row later e = rw (Spec.check, e)
