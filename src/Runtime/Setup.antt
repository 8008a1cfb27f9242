-- ===== src/Runtime/Setup.antt =====
-- controller-runtime's manager and the other libraries that `main` calls. Every call that does
-- something is noted in a trace.
use rcs_ocm_deployer.Common.{ℕ, String, Bool, Option, none, some, List, [], ◌∷◌, ◌++◌}
use rcs_ocm_deployer.Api.Scheme.{Kind, Builder}
use rcs_ocm_deployer.Api.Workload.{Capp}
use rcs_ocm_deployer.Runtime.Outcome.{Error, Reply, done, failed}

-- The variables behind the flags of `main`.
pub record Flags : Type 0 where
  pub metrics_addr : String
  pub probe_addr : String
  pub enable_leader_election : Bool
  pub ecs_logging : Bool

-- the packages whose types `init` adds to the scheme
pub data Package : Type 0 where
  client_go knative cluster_v1 cluster_v1beta1 work_v1 capp_v1alpha1 rcs_v1alpha1 : Package

-- `ctrl.Options`, without the scheme
pub record Options : Type 0 where
  pub metrics_bind_address : String
  pub webhook_port : ℕ
  pub health_probe_bind_address : String
  pub leader_election : Bool
  pub leader_election_id : String

pub data Reconciler : Type 0 where
  sync placement : Reconciler

-- A controller of Capps as the builder of controller-runtime is told about it.
pub record ControllerSpec : Type 0 where
  pub name : String
  pub event_filter : Capp → Bool
  pub reconciler : Reconciler
  pub recorder : String

pub data Handler : Type 0 where
  capp_validator capp_mutator : Handler

pub data Output : Type 0 where
  stdout : Output

pub data Level : Type 0 where
  debug_level : Level

-- a core of ecszap with the default configuration of the encoder
pub record Core : Type 0 where
  pub output : Output
  pub level : Level

-- A logger of zap on such a core, with or without `AddCaller`; or `runtimezap.New()`.
pub data Logger : Type 0 where
  zap_logger : Core → (add_caller : Bool) → Logger
  runtime_zap : Logger

pub data Call : Type 0 where
  register_kinds : Builder → List Kind → Call
  add_to_scheme : Package → Call
  set_logger : Logger → Call
  new_manager : Options → Call
  complete : ControllerSpec → Call
  register : String → Handler → Call
  add_healthz_check : String → Call
  add_readyz_check : String → Call
  start : Call

-- The libraries: what parsing the flags gives, and what each call answers. `GetConfigOrDie` exits
-- where there is no configuration, and registering a handler may panic.
pub record Library : Type 1 where
  pub Manager : Type 0
  pub parse : Flags → Flags
  pub installs : Package → Option Error
  pub has_config : Bool
  pub makes : Options → Reply Manager
  pub completes : ControllerSpec → Manager → Reply Manager
  pub registers : String → Handler → Manager → Option Manager
  pub adds_healthz : String → Manager → Reply Manager
  pub adds_readyz : String → Manager → Reply Manager
  pub starts : Manager → Reply (Unit {0})

-- How a part of the program ends: it goes on with a value, the process exits, or it panics.
pub data Ended (A : Type 0) : Type 0 where
  went_on : A → Ended A
  exited : ℕ → Ended A
  panicked : Ended A

abbrev pub Setup : Type 0 → Type 0
Setup A = List Call → Ended A × List Call

module _ {A B : Type 0} where
  abbrev pub followed : Ended A × List Call → (A → Setup B) → Ended B × List Call
  followed (went_on a, calls) f = f a calls
  followed (exited n, calls) f = (exited n, calls)
  followed (panicked, calls) f = (panicked, calls)

  infixl 5 ◌>>=◌
  unfoldable pub ◌>>=◌ : Setup A → (A → Setup B) → Setup B
  ◌>>=◌ m f calls = followed (m calls) f

  infixl 5 ◌>>◌
  unfoldable pub ◌>>◌ : Setup A → Setup B → Setup B
  ◌>>◌ m k calls = followed (m calls) (λ _. k)

unfoldable pub note : Call → Setup (Unit {0})
note call calls = (went_on tt, calls ++ call ∷ [])

-- `if err != nil { …; os.Exit(1) }`
unfoldable pub or_exit : {A : Type 0} → Call → Reply A → Setup A
or_exit call (done a) calls = (went_on a, calls ++ call ∷ [])
or_exit call (failed e) calls = (exited 1, calls ++ call ∷ [])

unfoldable pub or_panic : {A : Type 0} → Call → Option A → Setup A
or_panic call (some a) calls = (went_on a, calls ++ call ∷ [])
or_panic call none calls = (panicked, calls ++ call ∷ [])
