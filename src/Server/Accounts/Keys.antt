-- ===== src/Server/Accounts/Keys.antt =====
-- The key material of a setup, in what a login and an exchange of tokens hand out.
use yandex_go_final_diploma.Prelude.{
  ℕ, String, Bool, true, false, ◌≡◌, sym, ◌∙◌, ap, subst, ◌⊎◌, inl, inr, arith, some, Option-cases,
  List, [], ◌∷◌, find, update, Bool-cases,
}
use yandex_go_final_diploma.Exec.{Result, ok, err}
use yandex_go_final_diploma.Exec.Returns.{ok-injective, Result-cases}
use yandex_go_final_diploma.Server.Domain.{Bytes}
use yandex_go_final_diploma.Server.Errors.{JwtErr}
use yandex_go_final_diploma.Server.External.{External, UuidLaws, JsonbLaws}
use yandex_go_final_diploma.Server.Store.{Db, UserRow, World, Event}
use yandex_go_final_diploma.Server.Store.Accounts.{kdf_params_column, find_login, with_login}
use yandex_go_final_diploma.Server.Store.Queries.{with_user_id}
use yandex_go_final_diploma.Server.Tx.{pool}
use yandex_go_final_diploma.Server.Tx.Runs.{Serves-cases}
use yandex_go_final_diploma.Server.Secrets.Spec.{unless}
use yandex_go_final_diploma.Server.Accounts.{
  Argon2id, LoginParams, LoginResult, SetupEncryptionParams, login, refresh_token, setup_encryption,
}
use yandex_go_final_diploma.Server.Accounts.Spec
use yandex_go_final_diploma.Server.Accounts.Admits.{Serves-login}
use yandex_go_final_diploma.Server.Accounts.Exchanges.{
  Serves-refresh_token, Serves-setup_encryption,
}
use yandex_go_final_diploma.Jwt.{Library, TokenIssuer, issue, verify_refresh}

-- The answer has the key material of the setup: the salt and the wrapped key byte for byte, and the
-- parameters as the `jsonb` column gives them back, in which a reader of JSON finds the same value.
pub record Carries {V : Type 0} (x : External) (reads : Bytes → V) (p : SetupEncryptionParams)
    (res : LoginResult) : Type 0 where
  pub salt : res.enc_kdf_salt ≡ p.enc_kdf_salt
  pub params : kdf_params_column x p.enc_kdf_params ≡ some res.enc_kdf_params
  pub value : reads res.enc_kdf_params ≡ reads p.enc_kdf_params
  pub key : res.enc_master_key ≡ p.enc_master_key

-- The answer is that of a row of the table, with the row's id and key material.
pub record FromRow (x : External) (d : Db) (res : LoginResult) : Type 0 where
  pub test : UserRow → Bool
  pub row : UserRow
  pub found : find test d.users ≡ some row
  pub id : x.parse_uuid res.user_id ≡ some row.id
  pub salt : res.enc_kdf_salt ≡ row.enc_kdf_salt
  pub params : res.enc_kdf_params ≡ row.enc_kdf_params
  pub key : res.enc_master_key ≡ row.enc_master_key

admitted-FromRow :
    (x : External) (d : Db) (user_id : String) (row : UserRow) (test : UserRow → Bool)
    (o : Result JwtErr (String × String)) (res : LoginResult)
    → find test d.users ≡ some row
    → x.parse_uuid user_id ≡ some row.id
    → Spec.admitted user_id row o ≡ ok res
    → FromRow x d res
unfolding Spec.admitted
admitted-FromRow x d user_id row test (err e) res f i h = cc
admitted-FromRow x d user_id row test (ok (a, b)) res f i h = record {
  test = test;
  row = row;
  found = f;
  id = subst (λ r. x.parse_uuid r.user_id ≡ some row.id) (ok-injective h) i;
  salt = ground (arith, h);
  params = ground (arith, h);
  key = ground (arith, h);
}

-- A row that is found behind an update and that the update concerns has been updated.
find-Updated :
    (p : UserRow → Bool) (uid : ℕ) (keys : SetupEncryptionParams) (stored : Bytes)
    (xs : List UserRow) (b : UserRow)
    → find p (update (with_user_id uid) (Spec.with_keys keys stored) xs) ≡ some b
    → b.id ≡ uid
    → (a : UserRow) × (b ≡ Spec.with_keys keys stored a)
unfolding find update
find-Updated p uid keys stored [] b h i = cc
find-Updated p uid keys stored (c ∷ xs) b h i = elim (Bool-cases (with_user_id uid c)) [
  | inl e ↦ elim (Bool-cases (p (Spec.with_keys keys stored c))) [
    | inl f ↦ (c, ground (arith, e, f, h))
    | inr f ↦ find-Updated p uid keys stored xs b (ground (arith, e, f, h)) i
  ]
  | inr e ↦ elim (Bool-cases (p c)) [
    | inl f ↦ ground (arith, e, f, h, i)
    | inr f ↦ find-Updated p uid keys stored xs b (ground (arith, e, f, h)) i
  ]
]

module _ (x : External) (h : Argon2id) (l : Library) (t : TokenIssuer) where
  check-FromRow :
      (uuid : UuidLaws x) (password : Bytes) (row : UserRow) (later : ℕ) (test : UserRow → Bool)
      (d : Db) (res : LoginResult)
      → find test d.users ≡ some row
      → Spec.check x h l t password row later ≡ ok res
      → FromRow x d res
  unfolding Spec.check
  check-FromRow uuid password row later test d res f k =
      elim (Option-cases (h.compare password row.auth_hash)) [
        | inl e ↦ ground (arith, e, k)
        | inr (false, e) ↦ ground (arith, e, k)
        | inr (true, e) ↦
            admitted-FromRow x d (x.uuid_text row.id) row test
              (issue l t (x.uuid_text row.id) later) res f (uuid.parse-text row.id)
              (ground (arith, e, k))
      ]

  login-FromRow :
      (uuid : UuidLaws x) (p : LoginParams) (later : ℕ) (d : Db) (res : LoginResult)
      → (Spec.login x h l t p later d).0 ≡ ok res
      → FromRow x d res
  unfolding Spec.login unless find_login
  login-FromRow uuid p later d res k = elim (Option-cases (find (with_login x p.login) d.users)) [
    | inl e ↦ ground (arith, e, k)
    | inr (row, e) ↦
        check-FromRow uuid p.login_credential row later (with_login x p.login) d res e
          (ground (arith, e, k))
  ]

find-id :
    (uid : ℕ) (xs : List UserRow) (r : UserRow) → find (with_user_id uid) xs ≡ some r → r.id ≡ uid
unfolding find
find-id uid [] r h = cc
find-id uid (c ∷ xs) r h = ground (arith, h, find-id uid xs r)

refresh-FromRow :
    (x : External) (l : Library) (t : TokenIssuer) (token : String) (later : ℕ) (d : Db)
    (res : LoginResult)
    → (Spec.refresh_token x l t token later d).0 ≡ ok res
    → FromRow x d res
unfolding Spec.refresh_token
refresh-FromRow x l t token later d res k = elim (Result-cases (verify_refresh l t token later)) [
  | inl (e, f) ↦ ground (arith, f, k)
  | inr (user_id, f) ↦ elim (Option-cases (x.parse_uuid user_id)) [
    | inl g ↦ ground (arith, f, g, k)
    | inr (uid, g) ↦ elim (Option-cases (find (with_user_id uid) d.users)) [
      | inl e ↦ ground (arith, f, g, e, k)
      | inr (row, e) ↦
          admitted-FromRow x d user_id row (with_user_id uid) (issue l t user_id later) res e
            (g ∙ ap some (sym (find-id uid d.users row e))) (ground (arith, f, g, e, k))
    ]
  ]
]

-- The update that an accepted setup made.
setup-users :
    (x : External) (p : SetupEncryptionParams) (d : Db)
    → (Spec.setup_encryption x p d).0 ≡ ok tt
    → (uid : ℕ) × (x.parse_uuid p.user_id ≡ some uid)
      × (stored : Bytes) × (kdf_params_column x p.enc_kdf_params ≡ some stored)
      × ((Spec.setup_encryption x p d).1.users
          ≡ update (with_user_id uid) (Spec.with_keys p stored) d.users)
unfolding Spec.setup_encryption
setup-users x p d k = elim (Option-cases (x.parse_uuid p.user_id)) [
  | inl e ↦ ground (arith, e, k)
  | inr (uid, e) ↦ elim (Option-cases (find (with_user_id uid) d.users)) [
    | inl f ↦ ground (arith, e, f, k)
    | inr (r, f) ↦ elim (Option-cases (kdf_params_column x p.enc_kdf_params)) [
      | inl g ↦ ground (arith, e, f, g, k)
      | inr (stored, g) ↦ (uid, e, stored, g, ground (arith, e, f, g))
    ]
  ]
]

column-value :
    {V : Type 0} (x : External) (reads : Bytes → V) (laws : JsonbLaws x reads)
    (params stored : Bytes)
    → kdf_params_column x params ≡ some stored
    → reads stored ≡ reads params
unfolding kdf_params_column
column-value x reads laws [] stored e = ap reads (ground (arith, e))
column-value x reads laws (b ∷ bs) stored e = laws.same_value (b ∷ bs) stored e

-- An answer for the user of the setup, behind its update.
FromRow-Carries :
    {V : Type 0} (x : External) (reads : Bytes → V) (laws : JsonbLaws x reads)
    (p : SetupEncryptionParams) (uid : ℕ) (stored : Bytes) (users : List UserRow) (d : Db)
    (res : LoginResult)
    → x.parse_uuid p.user_id ≡ some uid
    → kdf_params_column x p.enc_kdf_params ≡ some stored
    → d.users ≡ update (with_user_id uid) (Spec.with_keys p stored) users
    → x.parse_uuid res.user_id ≡ x.parse_uuid p.user_id
    → FromRow x d res
    → Carries x reads p res
FromRow-Carries x reads laws p uid stored users d res e column u same r =
    let (a, is) =
      find-Updated r.test uid p stored users r.row (ap (find r.test) (sym u) ∙ r.found)
        (ground (arith, r.id, same, e)) in
    let params : res.enc_kdf_params ≡ stored = r.params ∙ ap (λ b. b.enc_kdf_params) is in
    let given : kdf_params_column x p.enc_kdf_params ≡ some res.enc_kdf_params =
      column ∙ ap some (sym params) in
    record {
      salt = r.salt ∙ ap (λ b. b.enc_kdf_salt) is;
      params = given;
      value = column-value x reads laws p.enc_kdf_params res.enc_kdf_params given;
      key = r.key ∙ ap (λ b. b.enc_master_key) is;
    }

module _ (x : External) (h : Argon2id) (l : Library) (t : TokenIssuer) where
  -- What a login or an exchange of tokens returned is that of a row.
  answer-FromRow :
      (uuid : UuidLaws x) (p : LoginParams) (token : String) (later : ℕ) (res : LoginResult)
      (w : World)
      → ((login x h l t pool p later w).0 ≡ ok res)
        ⊎ ((refresh_token x l t pool token later w).0 ≡ ok res)
      → FromRow x w.store res
  answer-FromRow uuid p token later res w (inl k) =
      elim (Serves-cases (Serves-login x h l t p later) w) [
        | inl (_, _, f, _) ↦ cc (f, k)
        | inr (same, _) ↦ login-FromRow x h l t uuid p later w.store res (sym same ∙ k)
      ]
  answer-FromRow uuid p token later res w (inr k) =
      elim (Serves-cases (Serves-refresh_token x l t token later) w) [
        | inl (_, _, f, _) ↦ cc (f, k)
        | inr (same, _) ↦ refresh-FromRow x l t token later w.store res (sym same ∙ k)
      ]

  -- If the text of a UUID reads back and a `jsonb` column keeps the value of a text: once a setup of
  -- encryption is acknowledged, a login or an exchange of tokens right after it that returns an answer
  -- for this user hands out the key material of the setup, whatever failures there were and are: the
  -- salt and the wrapped key byte for byte, and the parameters as the column gives them back, in
  -- which a reader of JSON finds the value that was set up.
  pub setup-Carries :
      {V : Type 0} (reads : Bytes → V) (laws : JsonbLaws x reads) (uuid : UuidLaws x)
      (p : SetupEncryptionParams) (w : World) (params : LoginParams) (token : String) (later : ℕ)
      (events : List Event) (res : LoginResult)
      → (setup_encryption x pool p w).0 ≡ ok tt
      → x.parse_uuid res.user_id ≡ x.parse_uuid p.user_id
      → let v : World = record { store = (setup_encryption x pool p w).1.store; events = events } in
        ((login x h l t pool params later v).0 ≡ ok res)
          ⊎ ((refresh_token x l t pool token later v).0 ≡ ok res)
        → Carries x reads p res
  setup-Carries reads laws uuid p w params token later events res k same told =
      elim (Serves-cases (Serves-setup_encryption x p) w) [
        | inl (_, _, f, _) ↦ cc (f, k)
        | inr (is, left) ↦
            let (uid, e, stored, column, u) = setup-users x p w.store (sym is ∙ k) in
            FromRow-Carries x reads laws p uid stored w.store.users _ res e column
              (ap (λ d. d.users) left ∙ u) same (answer-FromRow uuid params token later res _ told)
      ]
