-- ===== src/Rpc/GrpcClient/Unproved.antt =====
-- grpcclient/client.go with a token that proves no user: interceptor/auth.go on the way to the handlers.
use yandex_go_final_diploma.Prelude.{
  ℕ, String, false, some, List, [], ◌∷◌, ◌≡◌, ◌≢◌, ◌⊎◌, inl, inr, refl, ◌∙◌, arith, any, str_eq,
}
use yandex_go_final_diploma.Exec.{Exec, Result, ok, err}
use yandex_go_final_diploma.Jwt
use yandex_go_final_diploma.Server.Domain.{Bytes}
use yandex_go_final_diploma.Server.Errors.{JwtErr}
use yandex_go_final_diploma.Server.Store.{World}
use yandex_go_final_diploma.Client.Errors.{ClientErr}
use yandex_go_final_diploma.Rpc.{Code, Status, status}
use yandex_go_final_diploma.Rpc.Auth.{verified, methods_without_auth}
use yandex_go_final_diploma.Rpc.Auth.Tokens.{intercept-with_bearer}
use yandex_go_final_diploma.Rpc.Handlers.{Handler}
use yandex_go_final_diploma.Rpc.Network.{
  Fate, answered, request_lost, reply_lost, Passage, Remote, first_passage, arrival, transport,
  along, passed,
}
use yandex_go_final_diploma.Rpc.GrpcClient.{
  Site, served, invoke, reading, read, create_vault, list_vaults, check_freshness, create_secret,
  update_secret, delete_secret, list_secret_rows, list_secret_index, get_secret_payload,
}
use yandex_go_final_diploma.Rpc.GrpcClient.Recovery.{
  RecoveryCodeEntry, store_recovery_codes, get_recovery_blob, mark_recovery_code_used,
}

module _ (site : Site) where
  abbrev pub ProvesNoUser : String → Type 0
  ProvesNoUser token =
      (clock : ℕ) (user_id : String) → Jwt.verify site.tokens site.issuer token clock ≢ ok user_id

  -- A database that only others have changed.
  abbrev pub OnlyOthers : Remote → Remote → Type 0
  OnlyOthers r r' =
      (r'.store ≡ r.store)
      ⊎ ((p : Passage) × (first_passage r ≡ some p)
          × (r'.store ≡ (arrival site.external p r.store).store))

  -- A call that gets no answer but an error, and does nothing.
  abbrev pub IsRefused : {A : Type 0} → Exec Remote ClientErr A → Type 0
  IsRefused {A} call = (r : Remote) → ((a : A) → (call r).0 ≢ ok a) × OnlyOthers r (call r).1

  abbrev Stays : {A : Type 0} → Remote → Result Status A × Remote → Type 0
  Stays {A} r o = ((a : A) → o.0 ≢ ok a) × OnlyOthers r o.1

  read-error :
      {A B : Type 0} (on_err : Status → ClientErr) (response : A → B) (o : Result Status A)
      → ((a : A) → o ≢ ok a)
      → (b : B) → read on_err response o ≢ ok b
  read-error on_err response (ok a) never b h = absurd (never a refl)
  read-error on_err response (err s) never b h = ground (arith, h)

  module _ {A : Type 0} (method token : String) (handler : Handler A) (no_user : ProvesNoUser token)
      (wants_token : any (str_eq method) methods_without_auth ≡ false) where
    verified-refused :
        (clock : ℕ) (w : World) (o : Result JwtErr String)
        → Jwt.verify site.tokens site.issuer token clock ≡ o
        → verified o handler w ≡ (err (status Code.unauthenticated), w)
    verified-refused clock w (err e) h = refl
    verified-refused clock w (ok user_id) h = absurd (no_user clock user_id h)

    served-refused :
        (clock : ℕ) (w : World)
        → served site method token handler clock w ≡ (err (status Code.unauthenticated), w)
    unfolding served
    served-refused clock w =
        intercept-with_bearer _ method token handler w wants_token ∙ verified-refused clock w _ refl

    by_fate :
        (r : Remote) (p : Passage) (rest : List Passage) (fate : Fate)
        → first_passage r ≡ some p
        → Stays r (
            passed site.external
              (served site method token handler)
              p
              fate
              (record r { passages = rest }))
    unfolding passed
    by_fate r p rest answered on =
        rw (served-refused p.clock (arrival site.external p r.store))
          ((λ a h. ground (arith, h)), inr (p, on, refl))
    by_fate r p rest (reply_lost f) on =
        rw (served-refused p.clock (arrival site.external p r.store))
          ((λ a h. ground (arith, h)), inr (p, on, refl))
    by_fate r p rest (request_lost f) on = ((λ a h. ground (arith, h)), inr (p, on, refl))

    along-refused :
        (r : Remote) (passages : List Passage)
        → r.passages ≡ passages
        → Stays r (along site.external (served site method token handler) passages r)
    unfolding along
    along-refused r [] e = ((λ a h. ground (arith, h)), inl refl)
    along-refused r (p ∷ rest) e = by_fate r p rest p.fate (rw e refl)

    reading-IsRefused :
        {B : Type 0} (on_err : Status → ClientErr) (response : A → B)
        → IsRefused (reading on_err response (invoke site method token handler))
    unfolding reading invoke transport
    reading-IsRefused on_err response r =
        let (no_answer, others) = along-refused r r.passages refl in
        (read-error on_err response _ no_answer, others)

-- With a token that proves no user, at no time, every call of the client to the vaults, the secrets and the
-- recovery codes gets an error, and the database is as it was but for what others have changed.
pub calls-IsRefused :
    (site : Site) (token : String)
    → ProvesNoUser site token
    → ((key name : Bytes) → IsRefused site (create_vault site token key name))
      × IsRefused site (list_vaults site token)
      × IsRefused site (check_freshness site token)
      × ((id vault_id : String) (type : ℕ) (row index payload : Bytes)
          → IsRefused site (create_secret site token id vault_id type row index payload))
      × ((id : String) (base : ℕ) (row index payload : Bytes)
          → IsRefused site (update_secret site token id base row index payload))
      × ((id : String) (base : ℕ) → IsRefused site (delete_secret site token id base))
      × ((vault_id : String) → IsRefused site (list_secret_rows site token vault_id))
      × ((vault_id : String) → IsRefused site (list_secret_index site token vault_id))
      × ((id : String) → IsRefused site (get_secret_payload site token id))
      × ((codes : List RecoveryCodeEntry) → IsRefused site (store_recovery_codes site token codes))
      × ((code_id : String) → IsRefused site (get_recovery_blob site token code_id))
      × ((code_id : String) → IsRefused site (mark_recovery_code_used site token code_id))
unfolding create_vault list_vaults check_freshness create_secret update_secret delete_secret
    list_secret_rows list_secret_index get_secret_payload store_recovery_codes get_recovery_blob
    mark_recovery_code_used any methods_without_auth
calls-IsRefused site token no_user = (
  (λ key name. search reading-IsRefused),
  search reading-IsRefused,
  search reading-IsRefused,
  (λ id vault_id type row index payload. search reading-IsRefused),
  (λ id base row index payload. search reading-IsRefused),
  (λ id base. search reading-IsRefused),
  (λ vault_id. search reading-IsRefused),
  (λ vault_id. search reading-IsRefused),
  (λ id. search reading-IsRefused),
  (λ codes. search reading-IsRefused),
  (λ code_id. search reading-IsRefused),
  (λ code_id. search reading-IsRefused),
)
