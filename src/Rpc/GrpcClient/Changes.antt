-- ===== src/Rpc/GrpcClient/Changes.antt =====
-- grpcclient/client.go: what an edit or a deletion comes to, by its answer and the database behind it.
use yandex_go_final_diploma.Prelude.{ℕ, ◌+◌, String, true, none, some, ◌≡◌, refl}
use yandex_go_final_diploma.Exec.{Result, ok, err}
use yandex_go_final_diploma.Jwt
use yandex_go_final_diploma.Server.Domain.{Secret}
use yandex_go_final_diploma.Server.Store.{Db, SecretRow}
use yandex_go_final_diploma.Server.Secrets.Locking.{Replaced, Conflicts}
use yandex_go_final_diploma.Client.Errors.{ClientErr, ServerSecret}
use yandex_go_final_diploma.Rpc.Messages.{UpdateSecretRequest, DeleteSecretRequest}
use yandex_go_final_diploma.Rpc.Errors.Conflicts.{shown}
use yandex_go_final_diploma.Rpc.Network.{Fault, reply_lost, Passage, Remote, first_passage, arrival}
use yandex_go_final_diploma.Rpc.GrpcClient.{Site}

-- A change of a secret at a base version, asked for with a token; `change` is what it does to the row.
pub record Wanted : Type 0 where
  pub token : String
  pub secret_id : String
  pub base_version : ℕ
  pub change : SecretRow → SecretRow

abbrev pub wanted_edit : String → UpdateSecretRequest → Wanted
wanted_edit token req = record {
  token = token;
  secret_id = req.secret_id;
  base_version = req.base_version;
  change = λ row. record row {
    enc_row = req.enc_row;
    enc_index = req.enc_index;
    enc_payload = req.enc_payload;
    version = row.version + 1;
  };
}

abbrev pub wanted_removal : String → DeleteSecretRequest → Wanted
wanted_removal token req = record {
  token = token;
  secret_id = req.secret_id;
  base_version = req.base_version;
  change = λ row. record row { deleted = true; version = row.version + 1 };
}

module _ (site : Site) (want : Wanted) (r : Remote) where
  -- The change was made for the user whom the token proves, at the database that the call has met.
  pub record Made (passage : Passage) (user_id : String) (n : ℕ) (d' : Db) : Type 0 where
    pub on_the_way : first_passage r ≡ some passage
    pub token_of : Jwt.verify site.tokens site.issuer want.token passage.clock ≡ ok user_id
    pub replaced :
        Replaced site.external want.secret_id user_id want.base_version want.change n
          (arrival site.external passage r.store).store
          d'

  -- The change met the row at another version, and this is the row.
  pub record Refuses (c : ServerSecret) (d' : Db) : Type 0 where
    pub passage : Passage
    pub user_id : String
    pub current : Secret
    pub on_the_way : first_passage r ≡ some passage
    pub token_of : Jwt.verify site.tokens site.issuer want.token passage.clock ≡ ok user_id
    pub sent : c ≡ shown current
    pub conflicts :
        Conflicts site.external want.secret_id user_id want.base_version current
          (arrival site.external passage r.store).store
          d'

  -- Any other error: the change was not made, or its reply was lost.
  pub data Fails (d' : Db) : Type 0 where
    out_of_reach : first_passage r ≡ none → d' ≡ r.store → Fails d'
    not_made :
        (p : Passage)
        → first_passage r ≡ some p
        → d' ≡ (arrival site.external p r.store).store
        → Fails d'
    made_unheard :
        (p : Passage) (f : Fault) (user_id : String) (n : ℕ)
        → p.fate ≡ reply_lost f
        → Made p user_id n d'
        → Fails d'

  -- `Tells b n`: the answer b comes with the new version n.
  abbrev pub Answers : {B : Type 0} → (B → ℕ → Type 0) → Result ClientErr B → Db → Type 0
  Answers Tells (ok b) d' =
      (p : Passage) × (user_id : String) × (n : ℕ) × Tells b n × Made p user_id n d'
  Answers Tells (err (ClientErr.conflict c)) d' = Refuses c d'
  Answers Tells (err e) d' = Fails d'

  pub err-Answers :
      {B : Type 0} (Tells : B → ℕ → Type 0) (e : ClientErr) (d' : Db)
      → ((c : ServerSecret) → e ≡ ClientErr.conflict c → Refuses c d')
      → Fails d'
      → Answers Tells (err e) d'
  err-Answers Tells (ClientErr.conflict c) d' told fails = told c refl
  err-Answers Tells e d' told fails = fails
