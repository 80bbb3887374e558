-- ===== src/Rpc/GrpcClient/Handled.antt =====
-- The answers of a change by grpcclient/client.go, through a handler over a scenario of the server.
use yandex_go_final_diploma.Prelude.{
  ℕ, String, false, some, List, [], ◌∷◌, ◌≡◌, refl, sym, ap, ◌∙◌, subst, any, str_eq,
}
use yandex_go_final_diploma.Exec.{Exec, Result, ok, err}
use yandex_go_final_diploma.Jwt
use yandex_go_final_diploma.Server.Domain.{Secret}
use yandex_go_final_diploma.Server.Errors.{Err, conflict, JwtErr}
use yandex_go_final_diploma.Server.Store.{Db, World, Action}
use yandex_go_final_diploma.Server.Secrets.Locking.{Replaced, Conflicts}
use yandex_go_final_diploma.Client.Errors.{ClientErr, ServerSecret}
use yandex_go_final_diploma.Rpc.{Code, Status, status, StatusLaws}
use yandex_go_final_diploma.Rpc.Errors.{change_err, map_secret_err}
use yandex_go_final_diploma.Rpc.Errors.Conflicts.{shown, plain_conflict, change_err-conflict}
use yandex_go_final_diploma.Rpc.Auth.{verified, methods_without_auth}
use yandex_go_final_diploma.Rpc.Auth.Tokens.{intercept-with_bearer}
use yandex_go_final_diploma.Rpc.Handlers.{Handler, with_user, err_no_user, respond, responded}
use yandex_go_final_diploma.Rpc.Network.{
  Fault, fault_code, Fate, answered, request_lost, reply_lost, Passage, Remote, first_passage,
  arrival, along, passed,
}
use yandex_go_final_diploma.Rpc.GrpcClient.{Site, served, read}
use yandex_go_final_diploma.Rpc.GrpcClient.Changes.{
  Wanted, Fails, out_of_reach, not_made, made_unheard, Answers, err-Answers,
}

-- A scenario that makes the change for its user, or reports an error and changes nothing.
pub record Decides (site : Site) (want : Wanted) (scenario : String → Action ℕ) : Type 0 where
  pub replaced :
      (u : String) (w : World) (n : ℕ)
      → (scenario u w).0 ≡ ok n
      → Replaced site.external want.secret_id u want.base_version want.change n w.store
          (scenario u w).1.store
  pub conflicts :
      (u : String) (w : World) (k : Secret)
      → (scenario u w).0 ≡ err (conflict k)
      → Conflicts site.external want.secret_id u want.base_version k w.store (scenario u w).1.store
  pub unchanged :
      (u : String) (w : World) (e : Err)
      → (scenario u w).0 ≡ err e
      → (scenario u w).1.store ≡ w.store

module _ (site : Site) (statuses : StatusLaws site.statuses) (want : Wanted)
    (scenario : String → Action ℕ) (decides : Decides site want scenario) where
  -- What a handler comes to at a database: the change, or an error that changes nothing.
  data Handled {A : Type 0} (value : ℕ → A) (clock : ℕ) (d : Db) (a : Result Status A) (d' : Db)
      : Type 0 where
    made :
        (user_id : String) (n : ℕ)
        → a ≡ ok (value n)
        → Jwt.verify site.tokens site.issuer want.token clock ≡ ok user_id
        → Replaced site.external want.secret_id user_id want.base_version want.change n d d'
        → Handled value clock d a d'
    refused :
        (s : Status)
        → a ≡ err s
        → d' ≡ d
        → ((c : ServerSecret)
            → change_err s ≡ ClientErr.conflict c
            → (user_id : String) × (k : Secret) × (Jwt.verify site.tokens site.issuer want.token
                  clock
                ≡ ok user_id)
              × (c ≡ shown k)
              × Conflicts site.external want.secret_id user_id want.base_version k d d')
        → Handled value clock d a d'

  module _ {A : Type 0} (value : ℕ → A) where
    scenario-Handled :
        (clock : ℕ) (w : World) (u : String)
        → Jwt.verify site.tokens site.issuer want.token clock ≡ ok u
        → (o : Result Err ℕ) → (scenario u w).0 ≡ o
        → Handled value clock w.store
            (responded (map_secret_err site.statuses) value o)
            (scenario u w).1.store
    scenario-Handled clock w u v (ok n) h = made u n refl v (decides.replaced u w n h)
    scenario-Handled clock w u v (err e) h =
        refused (map_secret_err site.statuses e) refl (decides.unchanged u w e h) λ c told.
          let (k, is_conflict, sent) = change_err-conflict site.statuses statuses e c told in
          (u, k, v, sent, decides.conflicts u w k (h ∙ ap err is_conflict))

    abbrev pub handler : Handler A
    handler = with_user err_no_user λ u. respond (map_secret_err site.statuses) value (scenario u)

    verified-Handled :
        (clock : ℕ) (w : World) (o : Result JwtErr String)
        → Jwt.verify site.tokens site.issuer want.token clock ≡ o
        → Handled value clock w.store (verified o handler w).0 (verified o handler w).1.store
    unfolding respond
    verified-Handled clock w (err e) v =
        refused (status Code.unauthenticated) refl refl
          λ c told. absurd (plain_conflict Code.unauthenticated c told)
    verified-Handled clock w (ok u) v = scenario-Handled clock w u v _ refl

  -- The stub of the method, and what the client reads out of its answer.
  module _ {A B : Type 0} (value : ℕ → A) (response : A → B) (Tells : B → ℕ → Type 0)
      (tells : (n : ℕ) → Tells (response (value n)) n) (method : String)
      (wants_token : any (str_eq method) methods_without_auth ≡ false) where
    abbrev pub stub : ℕ → Exec World Status A
    stub = served site method want.token (handler value)

    served-Handled :
        (clock : ℕ) (w : World)
        → Handled value clock w.store (stub clock w).0 (stub clock w).1.store
    unfolding served
    served-Handled clock w =
        subst (λ (a : Result Status A × World). Handled value clock w.store a.0 a.1.store)
          (sym (intercept-with_bearer _ method want.token (handler value) w wants_token))
          (verified-Handled value clock w _ refl)

    answered-Answers :
        (r : Remote) (p : Passage)
        → first_passage r ≡ some p
        → (a : Result Status A) (d' : Db)
        → Handled value p.clock (arrival site.external p r.store).store a d'
        → Answers site want r Tells (read change_err response a) d'
    answered-Answers r p on a d' (made u n e v rep) =
        subst (λ (b : Result Status A). Answers site want r Tells (read change_err response b) d')
          (sym e) (p, u, n, tells n, record { on_the_way = on; token_of = v; replaced = rep })
    answered-Answers r p on a d' (refused s e same told) =
        subst (λ (b : Result Status A). Answers site want r Tells (read change_err response b) d')
          (sym e)
          (err-Answers site want r Tells (change_err s) d'
            (λ c is.
              let (u, k, v, sent, conflicts) = told c is in
              record {
                passage = p;
                user_id = u;
                current = k;
                on_the_way = on;
                token_of = v;
                sent = sent;
                conflicts = conflicts;
              })
            (not_made p on same))

    lost-Fails :
        (r : Remote) (p : Passage) (f : Fault)
        → first_passage r ≡ some p
        → p.fate ≡ reply_lost f
        → (a : Result Status A) (d' : Db)
        → Handled value p.clock (arrival site.external p r.store).store a d'
        → Fails site want r d'
    lost-Fails r p f on fate a d' (made u n e v rep) =
        made_unheard p f u n fate (record { on_the_way = on; token_of = v; replaced = rep })
    lost-Fails r p f on fate a d' (refused s e same told) = not_made p on same

    fault-Answers :
        (r : Remote) (code : Code) (d' : Db)
        → Fails site want r d'
        → Answers site want r Tells (err (change_err (status code))) d'
    fault-Answers r code d' fails =
        err-Answers site want r Tells _ d' (λ c is. absurd (plain_conflict code c is)) fails

    passed-Answers :
        (r : Remote) (p : Passage) (rest : List Passage) (fate : Fate)
        → p.fate ≡ fate
        → first_passage r ≡ some p
        → let (a, r') = passed site.external stub p fate (record r { passages = rest }) in
          Answers site want r Tells (read change_err response a) r'.store
    unfolding passed
    passed-Answers r p rest answered e on =
        answered-Answers r p on _ _ (served-Handled p.clock (arrival site.external p r.store))
    passed-Answers r p rest (reply_lost f) e on =
        fault-Answers r (fault_code f) _
          (lost-Fails r p f on e _ _ (served-Handled p.clock (arrival site.external p r.store)))
    passed-Answers r p rest (request_lost f) e on =
        fault-Answers r (fault_code f) _ (not_made p on refl)

    pub along-Answers :
        (r : Remote) (passages : List Passage)
        → r.passages ≡ passages
        → let (a, r') = along site.external stub passages r in
          Answers site want r Tells (read change_err response a) r'.store
    unfolding along
    along-Answers r [] e = fault-Answers r Code.unavailable r.store (out_of_reach (rw e refl) refl)
    along-Answers r (p ∷ rest) e = passed-Answers r p rest p.fate refl (rw e refl)
