-- ===== src/Client/Device/Keeps.antt =====
-- A relation between databases, kept by the statements of a scenario and so by the scenario.
use yandex_go_final_diploma.Prelude.{String, Bool, true, false, Option, none, some, List, [], ◌∷◌}
use yandex_go_final_diploma.Exec.{Exec}
use yandex_go_final_diploma.Exec.Keeps.{Keeps, Preorder}
use yandex_go_final_diploma.Client.Errors.{ClientErr}
use yandex_go_final_diploma.Client.Local.{Local, Statement}
use yandex_go_final_diploma.Client.Device.{Device, perform, run_local, run_remote, access_token}

-- The relation of the databases of two devices.
abbrev pub OnLocal : {S : Type 0} → (Local → Local → Type 0) → Device S → Device S → Type 0
OnLocal R d d' = R d.local d'.local

module _ {S A : Type 0} {R : Local → Local → Type 0} (p : Preorder R) where
  run_local-at :
      (st : Statement A) (d : Device S) (faults : List Bool)
      → R d.local (st d.local).1
      → R d.local (run_local st (record d { faults = faults })).1.local
  unfolding run_local
  run_local-at st d [] h = h
  run_local-at st d (true ∷ rest) h = p.stays d.local
  run_local-at st d (false ∷ rest) h = h

  -- The statement is known to keep the relation on this database.
  pub run_local-here :
      (st : Statement A) (d : Device S)
      → R d.local (st d.local).1
      → R d.local (run_local st d).1.local
  run_local-here st d h = run_local-at st d d.faults h

  pub run_local-Keeps : (st : Statement A) → Keeps R st → Keeps (OnLocal {S = S} R) (run_local st)
  run_local-Keeps st h = record { at = λ d. run_local-here st d (h.at d.local) }

  pub run_remote-Keeps : (call : Exec S ClientErr A) → Keeps (OnLocal R) (run_remote call)
  unfolding run_remote
  run_remote-Keeps call = record { at = λ d. p.stays d.local }

module _ {S : Type 0} {R : Local → Local → Type 0} (p : Preorder R) where
  pub OnLocal-Preorder : Preorder (OnLocal {S = S} R)
  OnLocal-Preorder = record {
    stays = λ d. p.stays d.local;
    chain = λ a b c. p.chain a.local b.local c.local;
  }

  access_token-at :
      (d : Device S) (t : Option String) → R d.local (access_token (record d { token = t })).1.local
  unfolding access_token
  access_token-at d none = p.stays d.local
  access_token-at d (some t) = p.stays d.local

  pub access_token-Keeps : Keeps (OnLocal {S = S} R) access_token
  access_token-Keeps = record { at = λ d. access_token-at d d.token }

-- A relation between devices that a statement keeps, where it fails and where it runs.
module _ {S A : Type 0} (R : Device S → Device S → Type 0) (st : Statement A)
    (fails : (d : Device S) (faults : List Bool) → R d (record d { faults = faults }))
    (runs : (d : Device S) (faults : List Bool) → R d (perform st faults d).1) where
  statement-at :
      (d : Device S) (faults : List Bool)
      → R (record d { faults = faults }) (run_local st (record d { faults = faults })).1
  unfolding run_local
  statement-at d [] = runs (record d { faults = [] }) []
  statement-at d (true ∷ rest) = fails (record d { faults = true ∷ rest }) rest
  statement-at d (false ∷ rest) = runs (record d { faults = false ∷ rest }) rest

  pub statement-Keeps : Keeps R (run_local st)
  statement-Keeps = record { at = λ d. statement-at d d.faults }

-- The relation of what is not on the devices' databases.
abbrev pub OnRemote : {S : Type 0} → (S → S → Type 0) → Device S → Device S → Type 0
OnRemote Q d d' = Q d.remote d'.remote

module _ {S : Type 0} {Q : S → S → Type 0} (p : Preorder Q) where
  pub OnRemote-Preorder : Preorder (OnRemote Q)
  OnRemote-Preorder = record {
    stays = λ d. p.stays d.remote;
    chain = λ a b c. p.chain a.remote b.remote c.remote;
  }

  pub run_local-OnRemote : {A : Type 0} (st : Statement A) → Keeps (OnRemote Q) (run_local st)
  run_local-OnRemote st =
      statement-Keeps (OnRemote Q) st (λ d _. p.stays d.remote) (λ d _. p.stays d.remote)

  pub run_remote-OnRemote :
      {A : Type 0} (call : Exec S ClientErr A) → Keeps Q call → Keeps (OnRemote Q) (run_remote call)
  unfolding run_remote
  run_remote-OnRemote call h = record { at = λ d. h.at d.remote }

  access_token-stays :
      (d : Device S) (t : Option String)
      → Q d.remote (access_token (record d { token = t })).1.remote
  unfolding access_token
  access_token-stays d none = p.stays d.remote
  access_token-stays d (some t) = p.stays d.remote

  pub access_token-OnRemote : Keeps (OnRemote Q) access_token
  access_token-OnRemote = record { at = λ d. access_token-stays d d.token }
