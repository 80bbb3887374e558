-- ===== src/Server/Accounts/History.antt =====
-- Histories of calls on accounts, and what a registration leaves in the table.
use yandex_go_final_diploma.Prelude.{
  find-updated, ℕ, String, Bool, true, false, ◌≡◌, refl, sym, ◌∙◌, ap, subst, inl, inr, arith, none,
  some, Option, Option-cases, List, [], ◌∷◌, ◌++◌, if◌then◌else◌, find, update,
}
use yandex_go_final_diploma.Exec.{Result, err}
use yandex_go_final_diploma.Exec.Keeps.{Keeps, Preorder}
use yandex_go_final_diploma.Server.Domain.{Bytes}
use yandex_go_final_diploma.Server.Errors.{Err, auth, hash_failure, empty_login, empty_password}
use yandex_go_final_diploma.Server.External.{External}
use yandex_go_final_diploma.Server.Store.{Db, UserRow, World, Event, Query, Action}
use yandex_go_final_diploma.Server.Store.Accounts.{kdf_params_column, find_login, with_login}
use yandex_go_final_diploma.Server.Store.Queries.{with_user_id}
use yandex_go_final_diploma.Server.Tx.{pool}
use yandex_go_final_diploma.Server.Tx.Runs.{Serves, Serves-cases}
use yandex_go_final_diploma.Server.Secrets.{is_empty, is_empty_text}
use yandex_go_final_diploma.Server.Secrets.Spec.{unless, Decision}
use yandex_go_final_diploma.Server.Accounts.{
  Argon2id, RegisterParams, RegisterResult, LoginParams, SetupEncryptionParams, register, login,
  refresh_token, setup_encryption,
}
use yandex_go_final_diploma.Server.Accounts.Spec
use yandex_go_final_diploma.Server.Accounts.Serves.{Serves-register}
use yandex_go_final_diploma.Server.Accounts.Admits.{Serves-login}
use yandex_go_final_diploma.Server.Accounts.Exchanges.{
  Serves-refresh_token, Serves-setup_encryption,
}
use yandex_go_final_diploma.Jwt.{Library, TokenIssuer}

-- The calls, each with what it draws: the salt of a registration.
pub data Call : Type 0 where
  registers : RegisterParams → Bytes → Call
  logs_in : LoginParams → Call
  refreshes : String → Call
  sets_up : SetupEncryptionParams → Call

find-kept :
    {A : Type 0} (p : A → Bool) (xs : List A) (a b : A)
    → find p xs ≡ some a
    → find p (xs ++ b ∷ []) ≡ some a
unfolding find
find-kept p [] a b h = cc
find-kept p (c ∷ xs) a b h = ground (arith, h, find-kept p xs a b)

pub find-new :
    {A : Type 0} (p : A → Bool) (xs : List A) (b : A)
    → find p xs ≡ none
    → p b ≡ true
    → find p (xs ++ b ∷ []) ≡ some b
unfolding find
find-new p [] b h e = rw e
find-new p (c ∷ xs) b h e = ground (arith, h, e, find-new p xs b)

-- Whoever is found under a login is found later, with the same id and hash.
pub record Stays (x : External) (d d' : Db) : Type 0 where
  pub at :
      (login : String) (r : UserRow)
      → find_login x login d ≡ some r
      → (r' : UserRow) × (find_login x login d' ≡ some r')
        × (r'.id ≡ r.id)
        × (r'.auth_hash ≡ r.auth_hash)

pub Stays-Preorder : (x : External) → Preorder (Stays x)
Stays-Preorder x = record {
  stays = λ d. record { at = λ login r h. (r, h, refl, refl) };
  chain = λ a b c h k. record {
    at = λ login r f.
        let (r', f', i, e) = h.at login r f in
        let (r'', f'', i', e') = k.at login r' f' in (r'', f'', i' ∙ i, e' ∙ e);
  };
}

Stays-users : (x : External) (d d' : Db) → d'.users ≡ d.users → Stays x d d'
Stays-users x d d' e = record { at = λ login r h. (r, unfold find_login in rw e h, refl, refl) }

Stays-append :
    (x : External) (d d' : Db) (u : UserRow) → d'.users ≡ d.users ++ u ∷ [] → Stays x d d'
Stays-append x d d' u e = record {
  at = λ login r h.
      (r, unfold find_login in rw e (find-kept (with_login x login) d.users r u h), refl, refl);
}

Stays-update :
    (x : External) (uid : ℕ) (p : SetupEncryptionParams) (stored : Bytes) (d d' : Db)
    → d'.users ≡ update (with_user_id uid) (Spec.with_keys p stored) d.users
    → Stays x d d'
Stays-update x uid p stored d d' e = record {
  at = λ login r h. (
    if with_user_id uid r then Spec.with_keys p stored r else r,
    unfold find_login in
        rw e (
          find-updated (with_login x login) (with_user_id uid) (Spec.with_keys p stored) (λ _. refl)
            d.users r h),
    ground arith,
    ground arith,
  );
}

module _ (x : External) (l : Library) (t : TokenIssuer) where
  enter-Stays :
      (login hash : String) (now : ℕ) (d : Db) → Stays x d (Spec.enter x l t login hash now d).1
  unfolding Spec.enter
  enter-Stays login hash now d =
      elim (Option-cases (find (with_user_id (x.random_uuid d.seed)) d.users)) [
        | inr (r, e) ↦ Stays-users x d _ (ground (arith, e))
        | inl e ↦ elim (Option-cases (find (with_login x login) d.users)) [
          | inr (r, f) ↦ Stays-users x d _ (ground (arith, e, f))
          | inl f ↦ Stays-append x d _ (Spec.new_user x login hash d) (ground (arith, e, f))
        ]
      ]

setup-Stays :
    (x : External) (p : SetupEncryptionParams) (d : Db) → Stays x d (Spec.setup_encryption x p d).1
unfolding Spec.setup_encryption
setup-Stays x p d = elim (Option-cases (x.parse_uuid p.user_id)) [
  | inl e ↦ Stays-users x d _ (ground (arith, e))
  | inr (uid, e) ↦ elim (Option-cases (find (with_user_id uid) d.users)) [
    | inl f ↦ Stays-users x d _ (ground (arith, e, f))
    | inr (r, f) ↦ elim (Option-cases (kdf_params_column x p.enc_kdf_params)) [
      | inl g ↦ Stays-users x d _ (ground (arith, e, f, g))
      | inr (stored, g) ↦ Stays-update x uid p stored d _ (ground (arith, e, f, g))
    ]
  ]
]

-- What serves a decision that keeps the accounts keeps them too.
Serves-Stays :
    {A : Type 0} (x : External) (m : Action A) (q : Query A)
    → Serves m q
    → ((d : Db) → Stays x d (q d).1)
    → (w : World) → Stays x w.store (m w).1.store
Serves-Stays x m q h k w = elim (Serves-cases h w) [
  | inl (_, _, _, e) ↦ Stays-users x w.store _ (ap (λ d. d.users) e)
  | inr (_, e) ↦ subst (Stays x w.store) (sym e) (k w.store)
]

unless-Keeps :
    {A : Type 0} (x : External) (b : Bool) (e : Err) (k : Decision A)
    → Keeps (Stays x) k
    → Keeps (Stays x) (unless b e k)
unfolding unless
unless-Keeps x true e k h = record { at = λ d. Stays-users x d d refl }
unless-Keeps x false e k h = record { at = λ d. h.at d }

module _ (x : External) (h : Argon2id) (l : Library) (t : TokenIssuer) where
  hashing-Stays :
      (login : String) (now : ℕ) (o : Option String) (d : Db)
      → Stays x d
          (elim o as (λ _. Result Err RegisterResult × Db) [
            | none ↦ (err hash_failure, d)
            | some hash ↦ Spec.enter x l t login hash now d
          ]).1
  hashing-Stays login now none d = Stays-users x d d refl
  hashing-Stays login now (some hash) d = enter-Stays x l t login hash now d

  hashing-Keeps :
      (login : String) (now : ℕ) (o : Option String)
      → Keeps {E = Err} {A = RegisterResult} (Stays x) (λ d. elim o [
        | none ↦ (err hash_failure, d)
        | some hash ↦ Spec.enter x l t login hash now d
      ])
  hashing-Keeps login now o = record { at = hashing-Stays login now o }

  register-Keeps :
      (p : RegisterParams) (salt : Bytes) (now : ℕ)
      → Keeps (Stays x) (Spec.register x h l t p salt now)
  unfolding Spec.register
  register-Keeps p salt now = unless-Keeps x (is_empty_text p.login) (auth empty_login) _ (
      unless-Keeps x (is_empty p.login_credential) (auth empty_password) _
        (hashing-Keeps p.login now (h.create_hash salt p.login_credential)))

  login-reads :
      (p : LoginParams) (now : ℕ) (d : Db) → (Spec.login x h l t p now d).1.users ≡ d.users
  unfolding Spec.login unless
  login-reads p now d = ground arith

  refresh-reads :
      (token : String) (now : ℕ) (d : Db) → (Spec.refresh_token x l t token now d).1.users ≡ d.users
  unfolding Spec.refresh_token
  refresh-reads token now d = ground arith

  -- The world behind one call.
  unfoldable pub behind : Call → ℕ → World → World
  behind (registers p salt) now w = (register x h l t pool p salt now w).1
  behind (logs_in p) now w = (login x h l t pool p now w).1
  behind (refreshes token) now w = (refresh_token x l t pool token now w).1
  behind (sets_up p) now w = (setup_encryption x pool p w).1

  pub behind-Stays : (c : Call) (now : ℕ) (w : World) → Stays x w.store (behind c now w).store
  unfolding behind
  behind-Stays (registers p salt) now w =
      Serves-Stays x _ _ (Serves-register x h l t p salt now)
        (λ d. (register-Keeps p salt now).at d) w
  behind-Stays (logs_in p) now w =
      Serves-Stays x _ _ (Serves-login x h l t p now) (λ d. Stays-users x d _ (login-reads p now d))
        w
  behind-Stays (refreshes token) now w =
      Serves-Stays x _ _ (Serves-refresh_token x l t token now)
        (λ d. Stays-users x d _ (refresh-reads token now d)) w
  behind-Stays (sets_up p) now w =
      Serves-Stays x _ _ (Serves-setup_encryption x p) (setup-Stays x p) w

  -- The database behind calls, each made at some time and in some environment.
  unfoldable pub after_all : List (Call × ℕ × List Event) → Db → Db
  unfolding behind
  after_all [] d = d
  after_all ((c, now, events) ∷ rest) d =
      after_all rest
        (behind c now (record { store = record d { now = now }; events = events })).store

  pub after_all-Stays :
      (calls : List (Call × ℕ × List Event)) (d : Db) → Stays x d (after_all calls d)
  unfolding after_all
  after_all-Stays [] d = Stays-users x d d refl
  after_all-Stays ((c, now, events) ∷ rest) d =
      (Stays-Preorder x).chain d _ _
        ((Stays-Preorder x).chain d (record d { now = now }) _ (Stays-users x d _ refl)
          (behind-Stays c now (record { store = record d { now = now }; events = events })))
        (after_all-Stays rest _)
