-- ===== src/Runtime/Action.antt =====
-- Handlers as actions on a run: the cluster, the writes sent so far, the events recorded so far.
-- What was written before an error or a panic stays written.
use rcs_ocm_deployer.Common.{String, List, []}
use rcs_ocm_deployer.Api.Workload.{Capp}
use rcs_ocm_deployer.Api.Work.{ManifestWork}
use rcs_ocm_deployer.Runtime.Outcome.{Error, Outcome, ok, err, panic, Reply, done, failed}

-- A write that was sent to the API server, whether or not the server accepted it.
pub data Write : Type 0 where
  update_capp : Capp → Write
  update_capp_status : Capp → Write
  create_work : ManifestWork → Write
  update_work : ManifestWork → Write
  delete_work : ManifestWork → Write

pub data EventType : Type 0 where
  normal warning : EventType

pub record Event : Type 0 where
  pub type : EventType
  pub reason : String
  pub message : String

pub record Run (W : Type 0) : Type 0 where
  pub cluster : W
  pub writes : List Write
  pub events : List Event

abbrev pub fresh : {W : Type 0} → W → Run W
fresh w = record { cluster = w; writes = []; events = [] }

abbrev pub Action : Type 0 → Type 0 → Type 0
Action W A = Run W → Outcome A × Run W

module _ {W A : Type 0} where
  abbrev pub pure : A → Action W A
  pure a s = (ok a, s)

  abbrev pub raise : Error → Action W A
  raise e s = (err e, s)

  abbrev pub abort : Action W A
  abort s = (panic, s)

module _ {W A : Type 0} where
  -- `v, err := f(…)` where the caller looks at the error; a panic goes through
  abbrev pub caught : Outcome A × Run W → Outcome (Reply A) × Run W
  caught (ok a, s) = (ok (done a), s)
  caught (err e, s) = (ok (failed e), s)
  caught (panic, s) = (panic, s)

  abbrev pub attempt : Action W A → Action W (Reply A)
  attempt m s = caught (m s)

module _ {W A B : Type 0} where
  abbrev pub continue : Outcome A × Run W → (A → Action W B) → Outcome B × Run W
  continue (ok a, s) f = f a s
  continue (err e, s) f = (err e, s)
  continue (panic, s) f = (panic, s)

  infixl 10 ◌>>=◌ ◌>>◌
  abbrev pub ◌>>=◌ : Action W A → (A → Action W B) → Action W B
  ◌>>=◌ m f s = continue (m s) f

  abbrev pub ◌>>◌ : Action W A → Action W B → Action W B
  m >> n = m >>= λ _. n
