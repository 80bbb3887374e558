-- ===== src/Server/Accounts/Refines.antt =====
-- The scenarios on accounts against their specification.
use yandex_go_final_diploma.Prelude.{String, true, none, some, ◌≡◌, refl, Option}
use yandex_go_final_diploma.Exec.{Result, ok, err}
use yandex_go_final_diploma.Server.Domain.{Bytes, User}
use yandex_go_final_diploma.Server.Errors.{
  Err, auth, JwtErr, db, is_fault, hash_failure, user_not_found, invalid_refresh_token,
  unique_violation,
}
use yandex_go_final_diploma.Server.External.{External}
use yandex_go_final_diploma.Server.Store.{Db, Action, Query}
use yandex_go_final_diploma.Server.Store.Accounts
use yandex_go_final_diploma.Server.Tx.{pool, q, alone}
use yandex_go_final_diploma.Server.Tx.Runs.{Serves, Serves-querier}
use yandex_go_final_diploma.Server.Tx.Serves.{Serves-raise, Serves-map, Serves-hide_no_rows}
use yandex_go_final_diploma.Server.Tx.Steps.{Serves-pure, Serves-told}
use yandex_go_final_diploma.Server.Repo.Serves.{Serves-parse}
use yandex_go_final_diploma.Server.Repo.Users as Repo
use yandex_go_final_diploma.Server.Accounts.{hashed, missing_user_as, if_missing, login, refreshing}

pub Serves-hashed : {A : Type 0} (o : Option A) → Serves (hashed o) (hashed o)
unfolding hashed
Serves-hashed none = Serves-raise hash_failure
Serves-hashed (some a) = Serves-pure a

pub hashed-reads : {A : Type 0} (o : Option A) (d : Db) → (hashed {S = Db} o d).1 ≡ d
unfolding hashed
hashed-reads none d = refl
hashed-reads (some a) d = refl

missing_user_as-fault :
    {A : Type 0} (e y : Err) → is_fault y ≡ true → missing_user_as {A = A} e (err y) ≡ err y
unfolding missing_user_as is_fault
missing_user_as-fault e (auth user_not_found) f = cc
missing_user_as-fault e y f = refl

pub Serves-if_missing :
    {A : Type 0} (e : Err) (m : Action A) (q : Query A)
    → Serves m q
    → Serves (if_missing e m) (if_missing e q)
unfolding if_missing
Serves-if_missing e m q h = Serves-told (missing_user_as e) m q (missing_user_as-fault e) h

pub Serves-refreshing : (r : Result JwtErr String) → Serves (refreshing r) (refreshing r)
unfolding refreshing
Serves-refreshing (err e) = Serves-raise (auth invalid_refresh_token)
Serves-refreshing (ok u) = Serves-pure u

pub refreshing-reads : (r : Result JwtErr String) (d : Db) → (refreshing {S = Db} r d).1 ≡ d
unfolding refreshing
refreshing-reads (err e) d = refl
refreshing-reads (ok u) d = refl

module _ (x : External) where
  created-fault : (y : Err) → is_fault y ≡ true → Repo.created x (err y) ≡ err y
  unfolding Repo.created is_fault
  created-fault (db (unique_violation c)) f = cc
  created-fault y f = refl

  pub Serves-create : (u : User) → Serves (Repo.create x (q pool) u) (Repo.create x alone u)
  unfolding Repo.create
  Serves-create u =
      Serves-told (Repo.created x) _ _ created-fault
        (Serves-querier pool _ (Accounts.create_user x u.login u.auth_hash))

  pub Serves-get_by_login :
      (login : String)
      → Serves (Repo.get_by_login x (q pool) login) (Repo.get_by_login x alone login)
  unfolding Repo.get_by_login
  Serves-get_by_login login = Serves-map (Repo.map_user x) _ _ (
      Serves-hide_no_rows (auth user_not_found) _ _
        (Serves-querier pool _ (Accounts.get_user_by_login x login)))

  pub Serves-get_by_id :
      (id : String) → Serves (Repo.get_by_id x (q pool) id) (Repo.get_by_id x alone id)
  unfolding Repo.get_by_id
  Serves-get_by_id id = Serves-parse (auth user_not_found) _ _ x id (λ uid.
      Serves-map (Repo.map_user x) _ _ (
        Serves-hide_no_rows (auth user_not_found) _ _
          (Serves-querier pool _ (Accounts.get_user_by_id uid))))

  pub Serves-update_enc_kdf :
      (id : String) (salt params key : Bytes)
      → Serves
          (Repo.update_enc_kdf x (q pool) id salt params key)
          (Repo.update_enc_kdf x alone id salt params key)
  unfolding Repo.update_enc_kdf
  Serves-update_enc_kdf id salt params key =
      Serves-parse (auth user_not_found) _ _ x id
        (λ uid. Serves-querier pool _ (Accounts.update_user_enc_kdf x uid salt params key))
