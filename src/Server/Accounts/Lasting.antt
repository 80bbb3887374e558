-- ===== src/Server/Accounts/Lasting.antt =====
-- What follows from a registration that was acknowledged.
use yandex_go_final_diploma.Prelude.{
  ℕ, String, false, ◌≡◌, ◌∙◌, ap, subst, inl, inr, arith, some, Option-cases, List, find,
  Bool-cases,
}
use yandex_go_final_diploma.Exec.{Result, ok, err}
use yandex_go_final_diploma.Server.Domain.{Bytes}
use yandex_go_final_diploma.Server.Errors.{
  Err, auth, login_taken, invalid_credentials, hash_failure, empty_login, db, unique_violation,
  empty_password,
}
use yandex_go_final_diploma.Server.External.{External}
use yandex_go_final_diploma.Server.Store.{Db, UserRow, World, Event}
use yandex_go_final_diploma.Server.Store.Accounts.{find_login}
use yandex_go_final_diploma.Server.Store.Queries.{with_user_id}
use yandex_go_final_diploma.Server.Tx.{pool}
use yandex_go_final_diploma.Server.Tx.Runs.{Serves-cases}
use yandex_go_final_diploma.Server.Secrets.{is_empty, is_empty_text}
use yandex_go_final_diploma.Server.Secrets.Spec.{unless}
use yandex_go_final_diploma.Server.Accounts.{
  Argon2id, HashLaws, RegisterParams, RegisterResult, register, login,
}
use yandex_go_final_diploma.Server.Accounts.Spec
use yandex_go_final_diploma.Server.Accounts.Serves.{Serves-register}
use yandex_go_final_diploma.Server.Accounts.History.{Call, after_all, after_all-Stays}
use yandex_go_final_diploma.Server.Accounts.Registered.{
  Entered, Told, login-Told, check-own, check-other, register-Entered, Stays-Entered,
}
use yandex_go_final_diploma.Jwt.{Library, TokenIssuer, issue}

module _ (x : External) (h : Argon2id) (l : Library) (t : TokenIssuer) where
  -- A login with the right credential, and with a wrong one, where the table has the name.
  login-Entered :
      (laws : HashLaws h) (name hash user_id : String) (salt own other : Bytes) (later : ℕ)
      (w : World)
      → h.create_hash salt own ≡ some hash
      → h.compare other hash ≡ some false
      → is_empty_text name ≡ false
      → is_empty own ≡ false
      → is_empty other ≡ false
      → Entered x name hash user_id w.store
      → (row : UserRow) × (find_login x name w.store ≡ some row)
        × Told
            (Spec.admitted user_id row (issue l t user_id later))
            (login x h l t pool (record { login = name; login_credential = own }) later w).0
        × Told
            (err (auth invalid_credentials))
            (login x h l t pool (record { login = name; login_credential = other }) later w).0
  login-Entered laws name hash user_id salt own other later w made refused a b c e = (
    e.row,
    e.found,
    subst
        (λ ans.
          Told ans (login x h l t pool (record { login = name; login_credential = own }) later w).0)
        (check-own x h l t own e.row later (rw e.hash_of (laws.own salt own hash made))
          ∙ ap (λ i. Spec.admitted i e.row (issue l t i later)) e.id)
        (login-Told x h l t (record { login = name; login_credential = own }) later e.row w a b
          e.found),
    subst
        (λ ans.
          Told ans
            (login x h l t pool (record { login = name; login_credential = other }) later w).0)
        (check-other x h l t other e.row later (rw e.hash_of refused))
        (login-Told x h l t (record { login = name; login_credential = other }) later e.row w a c
          e.found),
  )

  -- After a registration was acknowledged and any calls on accounts followed, with any times and
  -- failures, a login under that name, in whatever case, comes to a fault of the environment or to this:
  -- with the credential of the registration it gets the tokens of that user, or the issuer's
  -- error; with one that argon2id tells apart from the hash it is refused as invalid.
  pub register-login :
      (laws : HashLaws h) (p : RegisterParams) (salt : Bytes) (now : ℕ) (hash : String)
      (r : RegisterResult) (w : World)
      → h.create_hash salt p.login_credential ≡ some hash
      → (register x h l t pool p salt now w).0 ≡ ok r
      → (calls : List (Call × ℕ × List Event)) (name : String) (other : Bytes) (later : ℕ)
        (events : List Event)
      → x.fold_login name ≡ x.fold_login p.login
      → is_empty_text name ≡ false
      → is_empty other ≡ false
      → h.compare other hash ≡ some false
      → let d = after_all x h l t calls (register x h l t pool p salt now w).1.store in
        let v : World = record { store = d; events = events } in
        (row : UserRow) × (find_login x name d ≡ some row)
        × Told
            (Spec.admitted r.user_id row (issue l t r.user_id later))
            (login x h l t pool
              (record { login = name; login_credential = p.login_credential })
              later
              v).0
        × Told
            (err (auth invalid_credentials))
            (login x h l t pool (record { login = name; login_credential = other }) later v).0
  register-login laws p salt now hash r w made k calls name other later events same a b refused =
      let (entered, c) = register-Entered x h l t p salt now hash r w made k in
      login-Entered laws name hash r.user_id salt p.login_credential other later _ made refused a c
        b
        (Stays-Entered x p.login name hash r.user_id _ _ same
          (after_all-Stays x h l t calls (register x h l t pool p salt now w).1.store) entered)

  -- A refusal that changes nothing.
  abbrev Refused : Result Err RegisterResult × Db → Db → Type 0
  Refused s d = (e : Err) × (s.0 ≡ err e) × (s.1 ≡ d)

  enter-Refused :
      (name hash : String) (now : ℕ) (row : UserRow) (d : Db)
      → find_login x name d ≡ some row
      → Refused (Spec.enter x l t name hash now d) d
  unfolding Spec.enter find_login
  enter-Refused name hash now row d f =
      elim (Option-cases (find (with_user_id (x.random_uuid d.seed)) d.users)) [
        | inl e ↦ (auth login_taken, ground (arith, e, f), ground (arith, e, f))
        | inr (u, e) ↦ (db (unique_violation "users_pkey"), ground (arith, e), ground (arith, e))
      ]

  decided-Refused :
      (p : RegisterParams) (salt : Bytes) (now : ℕ) (row : UserRow) (d : Db)
      → find_login x p.login d ≡ some row
      → Refused (Spec.register x h l t p salt now d) d
  unfolding Spec.register unless
  decided-Refused p salt now row d f = elim (Bool-cases (is_empty_text p.login)) [
    | inl a ↦ (auth empty_login, ground (arith, a), ground (arith, a))
    | inr a ↦ elim (Bool-cases (is_empty p.login_credential)) [
      | inl b ↦ (auth empty_password, ground (arith, a, b), ground (arith, a, b))
      | inr b ↦ elim (Option-cases (h.create_hash salt p.login_credential)) [
        | inl e ↦ (hash_failure, ground (arith, a, b, e), ground (arith, a, b, e))
        | inr (hash, e) ↦ rw (a, b, e) (enter-Refused p.login hash now row d f)
      ]
    ]
  ]

  -- Once a registration was acknowledged, and whatever calls on accounts followed, with any times and
  -- failures, a registration under that name, in whatever case, gets an error and changes nothing.
  pub register-taken :
      (p : RegisterParams) (salt : Bytes) (now : ℕ) (hash : String) (r : RegisterResult) (w : World)
      → h.create_hash salt p.login_credential ≡ some hash
      → (register x h l t pool p salt now w).0 ≡ ok r
      → (calls : List (Call × ℕ × List Event)) (again : RegisterParams) (salt' : Bytes) (later : ℕ)
        (events : List Event)
      → x.fold_login again.login ≡ x.fold_login p.login
      → let d = after_all x h l t calls (register x h l t pool p salt now w).1.store in
        let (res, v) =
          register x h l t pool again salt' later (record { store = d; events = events }) in
        (e : Err) × (res ≡ err e) × (v.store ≡ d)
  register-taken p salt now hash r w made k calls again salt' later events same =
      let (entered, _) = register-Entered x h l t p salt now hash r w made k in
      let e =
        Stays-Entered x p.login again.login hash r.user_id _ _ same
          (after_all-Stays x h l t calls (register x h l t pool p salt now w).1.store) entered in
      let (y, f, g) = decided-Refused again salt' later e.row _ e.found in
      elim (Serves-cases (Serves-register x h l t again salt' later) (record {
        store = after_all x h l t calls (register x h l t pool p salt now w).1.store;
        events = events;
      })) [ inl (e, _, told, left) ↦ (e, told, left) | inr (told, left) ↦ (y, told ∙ f, left ∙ g) ]
