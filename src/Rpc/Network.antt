-- ===== src/Rpc/Network.antt =====
-- What is between a stub of the client and the handler of the server: google.golang.org/grpc, and what
-- others do to the database meanwhile.
use yandex_go_final_diploma.Prelude.{ℕ, Option, none, some, List, [], ◌∷◌}
use yandex_go_final_diploma.Exec.{Exec, err}
use yandex_go_final_diploma.Server.External.{External}
use yandex_go_final_diploma.Server.Store.{Db, World, Event}
use yandex_go_final_diploma.Server.Secrets.History.{Call, after_all}
use yandex_go_final_diploma.Rpc.{Code, Status, status}

-- The codes with which the library itself ends a call.
pub data Fault : Type 0 where
  cancelled unknown deadline_exceeded resource_exhausted unimplemented internal unavailable : Fault

abbrev pub fault_code : Fault → Code
fault_code Fault.cancelled = Code.cancelled
fault_code Fault.unknown = Code.unknown
fault_code Fault.deadline_exceeded = Code.deadline_exceeded
fault_code Fault.resource_exhausted = Code.resource_exhausted
fault_code Fault.unimplemented = Code.unimplemented
fault_code Fault.internal = Code.internal
fault_code Fault.unavailable = Code.unavailable

pub data Fate : Type 0 where
  answered : Fate
  request_lost reply_lost : Fault → Fate

-- One call on its way: the clock of the server and that of the database as it arrives, the calls on
-- secrets that others have made since, the failures that the server meets, and what becomes of it.
pub record Passage : Type 0 where
  pub clock : ℕ
  pub now : ℕ
  pub meanwhile : List (Call × ℕ × List Event)
  pub events : List Event
  pub fate : Fate

-- The server from far away. Behind the end of the list it is out of reach. `past` keeps the databases that
-- the calls have left; no code reads it.
pub record Remote : Type 0 where
  pub store : Db
  pub passages : List Passage
  pub past : List Db

abbrev pub left : Db → Remote → Remote
left d r = record r { store = d; past = d ∷ r.past }

abbrev pub first_passage : Remote → Option Passage
first_passage r = elim r.passages [ [] ↦ none | p ∷ _ ↦ some p ]

-- What the handler finds.
unfoldable pub arrival : External → Passage → Db → World
arrival x p d = record {
  store = record (after_all x p.meanwhile d) { now = p.now };
  events = p.events;
}

module _ {A : Type 0} (x : External) (handler : ℕ → Exec World Status A) where
  unfoldable pub passed : Passage → Fate → Exec Remote Status A
  unfolding arrival
  passed p answered r = let (a, w) = handler p.clock (arrival x p r.store) in (a, left w.store r)
  passed p (reply_lost f) r =
      let (a, w) = handler p.clock (arrival x p r.store) in
      (err (status (fault_code f)), left w.store r)
  passed p (request_lost f) r = (err (status (fault_code f)), left (arrival x p r.store).store r)

  unfoldable pub along : List Passage → Exec Remote Status A
  unfolding passed
  along [] r = (err (status Code.unavailable), r)
  along (p ∷ rest) r = passed p p.fate (record r { passages = rest })

  unfoldable pub transport : Exec Remote Status A
  unfolding along
  transport r = along r.passages r
