-- ===== src/Rpc/GrpcClient/Past.antt =====
-- The databases that the calls of grpcclient/client.by_result leave behind them.
use mathlib.Core.List.{Memᴰ}
use yandex_go_final_diploma.Prelude.{
  ℕ, String, false, some, List, [], ◌∷◌, ◌≡◌, refl, subst, sym, arith, any, str_eq,
}
use yandex_go_final_diploma.Exec.{Exec, Result, ok, err}
use yandex_go_final_diploma.Server.Errors.{Err, JwtErr}
use yandex_go_final_diploma.Server.External.{External}
use yandex_go_final_diploma.Server.Store.{Db, World, Action}
use yandex_go_final_diploma.Client.Errors.{ClientErr}
use yandex_go_final_diploma.Rpc.{Status}
use yandex_go_final_diploma.Rpc.Auth.{verified, methods_without_auth}
use yandex_go_final_diploma.Rpc.Auth.Tokens.{intercept-with_bearer}
use yandex_go_final_diploma.Rpc.Handlers.{Handler, respond, responded}
use yandex_go_final_diploma.Rpc.Network.{
  Fate, answered, request_lost, reply_lost, Passage, Remote, arrival, transport, along, passed,
}
use yandex_go_final_diploma.Rpc.GrpcClient.{Site, served, invoke, reading, read}

-- One of the databases that the calls have left.
abbrev pub Left : (Db → Type 0) → Remote → Type 0
Left Q r = (d : Db) × Memᴰ d r.past × Q d

module _ {A : Type 0} where
  passed-past :
      (x : External) (handler : ℕ → Exec World Status A) (p : Passage) (fate : Fate) (r : Remote)
      (d : Db)
      → Memᴰ d r.past
      → Memᴰ d (passed x handler p fate r).1.past
  unfolding passed
  passed-past x handler p answered r d m = Memᴰ.tail m
  passed-past x handler p (reply_lost f) r d m = Memᴰ.tail m
  passed-past x handler p (request_lost f) r d m = Memᴰ.tail m

  along-past :
      (x : External) (handler : ℕ → Exec World Status A) (passages : List Passage) (r : Remote)
      (d : Db)
      → Memᴰ d r.past
      → Memᴰ d (along x handler passages r).1.past
  unfolding along
  along-past x handler [] r d m = m
  along-past x handler (p ∷ rest) r d m =
      passed-past x handler p p.fate (record r { passages = rest }) d m

  -- A call forgets no database.
  pub invoke-past :
      (site : Site) (method token : String) (handler : Handler A) (r : Remote) (d : Db)
      → Memᴰ d r.past
      → Memᴰ d (invoke site method token handler r).1.past
  unfolding invoke transport
  invoke-past site method token handler r d m =
      along-past site.external (served site method token handler) r.passages r d m

module _ {A B : Type 0} (on_err : Status → ClientErr) (response : A → B) where
  module _ (site : Site) (method token : String) (handler : Handler A)
      (wants_token : any (str_eq method) methods_without_auth ≡ false) (Q : Db → Type 0)
      (leaves : (user_id : String) (w : World) (a : A)
        → (handler (some user_id) w).0 ≡ ok a
        → Q (handler (some user_id) w).1.store) where
    verified-leaves :
        (o : Result JwtErr String) (w : World) (a : A)
        → (verified o handler w).0 ≡ ok a
        → Q (verified o handler w).1.store
    verified-leaves (err e) w a h = ground (arith, h)
    verified-leaves (ok user_id) w a h = leaves user_id w a h

    served-leaves :
        (clock : ℕ) (w : World) (a : A)
        → (served site method token handler clock w).0 ≡ ok a
        → Q (served site method token handler clock w).1.store
    unfolding served
    served-leaves clock w a =
        subst (λ (o : Result Status A × World). o.0 ≡ ok a → Q o.1.store)
          (sym (intercept-with_bearer _ method token handler w wants_token)) (verified-leaves _ w a)

    read-ok : (a : Result Status A) (b : B) → read on_err response a ≡ ok b → (v : A) × (a ≡ ok v)
    read-ok (ok v) b h = (v, refl)
    read-ok (err s) b h = ground (arith, h)

    passed-leaves :
        (p : Passage) (fate : Fate) (r : Remote) (a : A)
        → (passed site.external (served site method token handler) p fate r).0 ≡ ok a
        → Left Q (passed site.external (served site method token handler) p fate r).1
    unfolding passed
    passed-leaves p answered r a h =
        (_, Memᴰ.head refl, served-leaves p.clock (arrival site.external p r.store) a h)
    passed-leaves p (reply_lost f) r a h = ground (arith, h)
    passed-leaves p (request_lost f) r a h = ground (arith, h)

    along-leaves :
        (passages : List Passage) (r : Remote) (a : A)
        → (along site.external (served site method token handler) passages r).0 ≡ ok a
        → Left Q (along site.external (served site method token handler) passages r).1
    unfolding along
    along-leaves [] r a h = ground (arith, h)
    along-leaves (p ∷ rest) r a h = passed-leaves p p.fate (record r { passages = rest }) a h

    -- What a handler leaves where it succeeds, a call that succeeds has left.
    pub reading-leaves :
        (r : Remote) (b : B)
        → (reading on_err response (invoke site method token handler) r).0 ≡ ok b
        → Left Q (reading on_err response (invoke site method token handler) r).1
    unfolding reading invoke transport
    reading-leaves r b h = let (v, e) = read-ok _ b h in along-leaves r.passages r v e

-- What a scenario leaves where it succeeds, its handler leaves.
pub respond-leaves :
    {A B : Type 0} (Q : Db → Type 0) (map_err : Err → Status) (response : A → B) (m : Action A)
    (w : World) (b : B)
    → ((a : A) → (m w).0 ≡ ok a → Q (m w).1.store)
    → (respond map_err response m w).0 ≡ ok b
    → Q (respond map_err response m w).1.store
unfolding respond
respond-leaves Q map_err response m w b leaves h = by_result (m w).0 refl h
  where
    by_result :
        (o : Result Err _) → (m w).0 ≡ o → responded map_err response o ≡ ok b → Q (m w).1.store
    by_result (ok a) e h = leaves a e
    by_result (err x) e h = ground (arith, h)
