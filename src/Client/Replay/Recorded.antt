-- ===== src/Client/Replay/Recorded.antt =====
-- A server behind a recorder, which notes the changes that it has accepted.
use mathlib.Core.List.{Memᴰ}
use yandex_go_final_diploma.Prelude.{ℕ, String, Option, none, some, List, ◌∷◌, ◌≡◌, refl, arith}
use mathlib.Core.Option
use yandex_go_final_diploma.Exec.{Exec, Result, ok, err}
use yandex_go_final_diploma.Server.Domain.{Bytes}
use yandex_go_final_diploma.Client.Errors.{ClientErr}
use yandex_go_final_diploma.Client.Local.{
  OutboxEntry, OutboxOp, create, update, delete, blob_upload, unknown,
}
use yandex_go_final_diploma.Client.Device.{ServerClient, Json}
use yandex_go_final_diploma.Client.Replay.{Uploader}

pub data Change : Type 0 where
  created : String → String → ℕ → Bytes → Bytes → Bytes → Change
  updated : String → ℕ → Bytes → Bytes → Bytes → Change
  deleted : String → ℕ → Change
  uploaded : String → String → Change

-- The change that an entry of the queue stands for, if its body decodes.
unfoldable pub change_as : Json → Bytes → OutboxOp → Option Change
change_as json b create =
    Option.map (λ p. created p.secret_id p.vault_id p.type p.enc_row p.enc_index p.enc_payload)
      (json.creates.get b)
change_as json b update =
    Option.map (λ p. updated p.secret_id p.base_version p.enc_row p.enc_index p.enc_payload)
      (json.updates.get b)
change_as json b delete = Option.map (λ p. deleted p.secret_id p.base_version) (json.deletes.get b)
change_as json b blob_upload =
    Option.map (λ p. uploaded p.secret_id p.vault_id) (json.uploads.get b)
change_as json b unknown = none

abbrev pub noted : {A : Type 0} → Change → Result ClientErr A → List Change → List Change
noted c (ok _) log = c ∷ log
noted c (err _) log = log

module _ {S : Type 0} where
  -- A call of the server, noted if it was accepted.
  unfoldable pub noting :
      {A : Type 0} → Change → Exec S ClientErr A → Exec (S × List Change) ClientErr A
  noting c call (s, log) = let (r, s') = call s in (r, (s', noted c r log))

  unfoldable pub passing : {A : Type 0} → Exec S ClientErr A → Exec (S × List Change) ClientErr A
  passing call (s, log) = let (r, s') = call s in (r, (s', log))

  unfoldable pub recorded : ServerClient S → ServerClient (S × List Change)
  recorded srv = record {
    check_freshness = λ t. passing (srv.check_freshness t);
    list_vaults = λ t. passing (srv.list_vaults t);
    list_secret_rows = λ t v. passing (srv.list_secret_rows t v);
    list_secret_index = λ t v. passing (srv.list_secret_index t v);
    get_secret_payload = λ t i. passing (srv.get_secret_payload t i);
    create_secret =
        λ t i v ty r x p. noting (created i v ty r x p) (srv.create_secret t i v ty r x p);
    update_secret = λ t i b r x p. noting (updated i b r x p) (srv.update_secret t i b r x p);
    delete_secret = λ t i b. noting (deleted i b) (srv.delete_secret t i b);
  }

  unfoldable pub recorded_uploader : Option (Uploader S) → Option (Uploader (S × List Change))
  recorded_uploader none = none
  recorded_uploader (some upload) = some (λ i v. noting (uploaded i v) (upload i v))

-- The server has accepted the change that the entry stands for.
pub record Accepted (json : Json) (e : OutboxEntry) (log : List Change) : Type 0 where
  pub change : Change
  pub stands_for : change_as json e.payload e.op ≡ some change
  pub is_noted : Memᴰ change log

module _ {A : Type 0} (c : Change) where
  noted-grows :
      (r : Result ClientErr A) (log : List Change) (x : Change)
      → Memᴰ x log
      → Memᴰ x (noted c r log)
  noted-grows (ok _) log x h = Memᴰ.tail h
  noted-grows (err _) log x h = h

  noted-has :
      (r : Result ClientErr A) (a : A) (log : List Change) → r ≡ ok a → Memᴰ c (noted c r log)
  noted-has (ok _) a log h = Memᴰ.head refl
  noted-has (err _) a log h = ground (arith, h)

module _ {S A : Type 0} (c : Change) (call : Exec S ClientErr A) where
  pub noting-grows : (w : S × List Change) (x : Change) → Memᴰ x w.1 → Memᴰ x (noting c call w).1.1
  unfolding noting
  noting-grows (s, log) x h = noted-grows c (call s).0 log x h

  pub noting-has :
      (w : S × List Change) (a : A) → (noting c call w).0 ≡ ok a → Memᴰ c (noting c call w).1.1
  unfolding noting
  noting-has (s, log) a h = noted-has c (call s).0 a log h
