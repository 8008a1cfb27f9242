-- ===== src/Manager/Order.antt =====
-- The order in which `main` sets the parts up.
use rcs_ocm_deployer.Common.{◌≡◌, List, [], ◌∷◌, ◌++◌, if◌then◌else◌}
use rcs_ocm_deployer.Api.Scheme.{rcs_config, rcs_config_list, scheme_builder}
use rcs_ocm_deployer.Runtime.Setup.{
  Flags, client_go, knative, cluster_v1, cluster_v1beta1, work_v1, capp_v1alpha1, rcs_v1alpha1,
  capp_validator, capp_mutator, runtime_zap, Call, register_kinds, add_to_scheme, set_logger,
  new_manager, complete, register, add_healthz_check, add_readyz_check, start, Ended, went_on,
  exited, panicked, Setup,
}
use rcs_ocm_deployer.Manager.{
  ecs_logger, validator_serving_path, mutator_serving_path, sync_spec, placement_spec, options_of,
}

-- The rest of a plan is empty where the program goes on, and an exit has the code 1.
abbrev pub Finishes : {A : Type 0} → Ended A → List Call → Type 0
Finishes (went_on a) rest = rest ≡ []
Finishes (exited n) rest = n ≡ 1
Finishes panicked rest = Unit

abbrev pub IsPlanned : {A : Type 0} → List Call → List Call → Ended A × List Call → Type 0
IsPlanned plan calls r = (rest : List Call) × (r.1 ++ rest ≡ calls ++ plan) × Finishes r.0 rest

-- The calls of the part are those of the plan, up to where it stops.
pub record Follows {A : Type 0} (plan : List Call) (m : Setup A) : Type 0 where
  pub planned : (calls : List Call) → IsPlanned plan calls (m calls)

-- the plan of the `init` of api/v1alpha1
abbrev pub api_plan : List Call
api_plan = register_kinds scheme_builder (rcs_config ∷ rcs_config_list ∷ []) ∷ []

-- the plan of the `init` of `main`
abbrev pub init_plan : List Call
init_plan =
    add_to_scheme client_go
    ∷ add_to_scheme client_go
    ∷ add_to_scheme knative
    ∷ add_to_scheme cluster_v1
    ∷ add_to_scheme cluster_v1beta1
    ∷ add_to_scheme work_v1
    ∷ add_to_scheme capp_v1alpha1
    ∷ add_to_scheme rcs_v1alpha1
    ∷ []

-- the plan of `main`: the manager, both controllers, both webhooks and both checks, then the start
abbrev pub run_plan : Flags → List Call
run_plan flags =
    set_logger (if flags.ecs_logging then ecs_logger else runtime_zap)
    ∷ new_manager (options_of flags)
    ∷ complete sync_spec
    ∷ complete placement_spec
    ∷ register validator_serving_path capp_validator
    ∷ register mutator_serving_path capp_mutator
    ∷ add_healthz_check "healthz"
    ∷ add_readyz_check "readyz"
    ∷ start
    ∷ []

-- the plans of the parts of `main` behind the manager
abbrev controllers_plan : List Call
controllers_plan = complete sync_spec ∷ complete placement_spec ∷ []

abbrev webhooks_plan : List Call
webhooks_plan =
    register validator_serving_path capp_validator ∷ register mutator_serving_path capp_mutator ∷ []

abbrev start_plan : List Call
start_plan = add_healthz_check "healthz" ∷ add_readyz_check "readyz" ∷ start ∷ []
