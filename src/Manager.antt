-- ===== src/Manager.antt =====
-- cmd/main.go, with the `SetupWithManager` of the two controllers: the parts are registered with a
-- manager, which is then started.
pub mod Order
use rcs_ocm_deployer.Common.{
  String, Bool, true, false, Option, none, some, List, [], ◌∷◌, if◌then◌else◌,
}
use rcs_ocm_deployer.Api.Scheme.{scheme_builder, registered_kinds}
use rcs_ocm_deployer.Runtime.Outcome.{Error}
use rcs_ocm_deployer.Runtime.Setup.{
  Flags, Package, client_go, knative, cluster_v1, cluster_v1beta1, work_v1, capp_v1alpha1,
  rcs_v1alpha1, Options, sync, placement, ControllerSpec, Handler, capp_validator, capp_mutator,
  Logger, zap_logger, runtime_zap, Core, stdout, debug_level, Call, register_kinds, add_to_scheme,
  set_logger, new_manager, complete, register, add_healthz_check, add_readyz_check, start, Library,
  Ended, panicked, exited, Setup, ◌>>=◌, ◌>>◌, note, or_exit, or_panic,
}
use rcs_ocm_deployer.Placement.Controller as PlacementController
use rcs_ocm_deployer.Sync.Controller as SyncController

-- the defaults that the flags are declared with
abbrev pub default_flags : Flags
default_flags = record {
  metrics_addr = ":8080";
  probe_addr = ":8081";
  enable_leader_election = false;
  ecs_logging = true;
}

-- `utilruntime.Must`
unfoldable pub must : Package → Option Error → Setup (Unit {0})
must p none = or_panic (add_to_scheme p) (some tt)
must p (some e) = or_panic (add_to_scheme p) none

-- `ValidatorServingPath`
abbrev pub validator_serving_path : String
validator_serving_path = "/validate-capp"

-- `MutatorServingPath`
abbrev pub mutator_serving_path : String
mutator_serving_path = "/mutate-capp"

-- what `SyncReconciler.SetupWithManager` tells the builder of a controller
abbrev pub sync_spec : ControllerSpec
sync_spec = record {
  name = SyncController.controller_name;
  event_filter = SyncController.capp_predicate;
  reconciler = sync;
  recorder = "sync-controller";
}

-- what `PlacementReconciler.SetupWithManager` tells it
abbrev pub placement_spec : ControllerSpec
placement_spec = record {
  name = PlacementController.controller_name;
  event_filter = PlacementController.capp_predicate;
  reconciler = placement;
  recorder = "placement-controller";
}

-- the options of `main`
abbrev pub options_of : Flags → Options
options_of flags = record {
  metrics_bind_address = flags.metrics_addr;
  webhook_port = 9443;
  health_probe_bind_address = flags.probe_addr;
  leader_election = flags.enable_leader_election;
  leader_election_id = "80807133.rcs.dana.io";
}

-- the logger of `initEcsLogger`
abbrev pub ecs_logger : Logger
ecs_logger =
    let core : Core = record { output = stdout; level = debug_level } in zap_logger core true

-- `initEcsLogger`
unfoldable pub init_ecs_logger : Setup (Unit {0})
init_ecs_logger = note (set_logger ecs_logger)

-- `init` of api/v1alpha1, which runs before the one of `main` since `main` imports that package
unfoldable pub init_api : Setup (Unit {0})
init_api = note (register_kinds scheme_builder registered_kinds)

-- `GetConfigOrDie` without a configuration
unfoldable pub exit_early : {A : Type 0} → Setup A
exit_early calls = (exited 1, calls)

module _ (L : Library) where
  -- `init`
  unfoldable pub init : Setup (Unit {0})
  init = do
    must client_go (L.installs client_go)
    must client_go (L.installs client_go)
    must knative (L.installs knative)
    must cluster_v1 (L.installs cluster_v1)
    must cluster_v1beta1 (L.installs cluster_v1beta1)
    must work_v1 (L.installs work_v1)
    must capp_v1alpha1 (L.installs capp_v1alpha1)
    must rcs_v1alpha1 (L.installs rcs_v1alpha1)

  -- the two controllers: `SetupWithManager` of each
  unfoldable pub set_up_controllers : L.Manager → Setup L.Manager
  set_up_controllers mgr = do
    with_sync ← or_exit (complete sync_spec) (L.completes sync_spec mgr)
    or_exit (complete placement_spec) (L.completes placement_spec with_sync)

  -- the two webhooks
  unfoldable pub set_up_webhooks : L.Manager → Setup L.Manager
  set_up_webhooks mgr = do
    with_validator ←
        or_panic (register validator_serving_path capp_validator)
          (L.registers validator_serving_path capp_validator mgr)
    or_panic (register mutator_serving_path capp_mutator)
        (L.registers mutator_serving_path capp_mutator with_validator)

  -- the checks, and the start
  unfoldable pub check_and_start : L.Manager → Setup (Unit {0})
  check_and_start mgr = do
    healthy ← or_exit (add_healthz_check "healthz") (L.adds_healthz "healthz" mgr)
    ready ← or_exit (add_readyz_check "readyz") (L.adds_readyz "readyz" healthy)
    or_exit start (L.starts ready)

  -- `main` from the flags on
  unfoldable pub run : Flags → Setup (Unit {0})
  run flags = do
    if flags.ecs_logging then init_ecs_logger else note (set_logger runtime_zap)
    mgr ←
        if L.has_config
        then or_exit (new_manager (options_of flags)) (L.makes (options_of flags))
        else exit_early
    with_controllers ← set_up_controllers mgr
    with_webhooks ← set_up_webhooks with_controllers
    check_and_start with_webhooks

  -- the program: the `init` of api/v1alpha1, that of `main`, then `main`
  unfoldable pub main : Setup (Unit {0})
  main = do init_api; init; run (L.parse default_flags)
