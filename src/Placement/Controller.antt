-- ===== src/Placement/Controller.antt =====
-- internal/placement/controller/placement_controller.go
pub mod Faults
pub mod Handover
pub mod Bounds
pub mod Confined
use rcs_ocm_deployer.Common.{
  ℕ, String, ◌<>◌, Bool, not, ◌||◌, Option, none, some, List, [], ◌∷◌, ◌==◌, contains,
  if◌then◌else◌,
}
use rcs_ocm_deployer.Api.Meta.{NamespacedName}
use rcs_ocm_deployer.Api.Workload.{Capp, RcsConfig}
use rcs_ocm_deployer.Api.Work.{PlacementDecisionList}
use rcs_ocm_deployer.Runtime.Outcome.{
  Error, errorf, no_managed_cluster, error_text, is_not_found, Reply, done, failed,
}
use rcs_ocm_deployer.Runtime.Client.{Client, Externals}
use rcs_ocm_deployer.Runtime.Action.{
  Action, pure, raise, abort, attempt, ◌>>=◌, ◌>>◌, normal, warning,
}
use rcs_ocm_deployer.Runtime.Calls.{query, record_event}
use rcs_ocm_deployer.Runtime.Reconcile.{ReconcileResult, no_result}
use rcs_ocm_deployer.Utils.{event_capp_scheduled, contains_placement_annotation}
use rcs_ocm_deployer.Placement.Adapters.{
  get_placement_decision_list, get_decision_cluster_name, update_capp_destination,
}

-- `RCSConfigName` and `RCSConfigNamespace`: this package has its own
abbrev pub rcs_config_name : String
rcs_config_name = "rcs-config"

abbrev pub rcs_config_namespace : String
rcs_config_namespace = "rcs-deployer-system"

abbrev pub default_placements_namespace : String
default_placements_namespace = "default"

-- `controllerName`
abbrev pub controller_name : String
controller_name = "PlacementController"

-- `RequeueTime`
abbrev pub requeue_time : ℕ
requeue_time = 20

-- `CappPredicateFunctions`: its three functions make the same test of the event's object
unfoldable pub capp_predicate : Capp → Bool
capp_predicate c = not (contains_placement_annotation c)

-- `placementRef` of `pickDecision`; `none` is the index out of range when there is no placement
first_placement : List String → Option String
first_placement [] = none
first_placement (p ∷ placements) = some p

unfoldable pub placement_to_use : String → List String → Option String
unfolding first_placement
placement_to_use site placements = if site == "" then first_placement placements else some site

-- `placementsNamespace` of `Reconcile`
unfoldable pub placements_namespace_of : RcsConfig → String
placements_namespace_of config =
    if config.spec.placements_namespace == ""
    then default_placements_namespace
    else config.spec.placements_namespace

module _ (E : Externals) (C : Client) where
  -- the end of `pickDecision`, from the list of decisions; reading the items of nil panics
  unfoldable pub pick_from :
      record { list : Option PlacementDecisionList; error : Option Error } → Action C.Cluster String
  unfolding error_text
  pick_from listed = elim listed.list [
    | none ↦ abort
    | some l ↦ elim l.items [
      | [] ↦ raise no_managed_cluster
      | pd ∷ items ↦ elim listed.error [
        | some e ↦ raise (errorf ("failed to list placementDecisions: " <> error_text e))
        | none ↦
            let cluster = get_decision_cluster_name (pd ∷ items) in
            if cluster == "" then raise no_managed_cluster else pure cluster
      ]
    ]
  ]

  -- `pickDecision`
  unfoldable pub pick_decision : Capp → List String → String → Action C.Cluster String
  unfolding pick_from placement_to_use get_placement_decision_list
  pick_decision capp placements placements_namespace =
      elim (placement_to_use capp.spec.site placements) [
        | none ↦ abort
        | some ref ↦ do
          found ← query (C.get_placement (record { name = ref; namespace = placements_namespace }))
          elim found [
            | failed e ↦ raise (errorf ("failed to get placement: " <> error_text e))
            | done _ ↦ do
              listed ← get_placement_decision_list E C ref placements_namespace
              pick_from listed
          ]
      ]

  -- what `Reconcile` does with the error of `pickDecision`
  unfoldable pub not_picked : Capp → Error → Action C.Cluster ReconcileResult
  not_picked capp no_managed_cluster = do
    record_event warning "PlacementDecisionNotSatisfied" (
        "Failed to schedule Capp "
        <> E.quote capp.name
        <> " on managed cluster. PlacementDecision with optional clusters was not found for placement "
        <> E.quote capp.spec.site)
    pure (record { requeue_after = requeue_time })
  not_picked capp e = raise e

  -- the end of `Reconcile`, with the cluster that was chosen
  unfoldable pub deploy_on : Capp → String → Action C.Cluster ReconcileResult
  unfolding update_capp_destination error_text
  deploy_on capp cluster = do
    updated ← attempt (update_capp_destination C capp cluster)
    elim updated [
      | failed e ↦ raise (errorf ("unable to update Capp with selected cluster: " <> error_text e))
      | done _ ↦ do
        record_event normal event_capp_scheduled
            ("Scheduled Capp " <> E.quote capp.name <> " on managed cluster " <> E.quote cluster)
        pure no_result
    ]

  -- `Reconcile` behind the call of `pickDecision`
  unfoldable pub deploy_picked : Capp → Reply String → Action C.Cluster ReconcileResult
  deploy_picked capp (done cluster) = deploy_on capp cluster
  deploy_picked capp (failed e) = not_picked capp e

  -- `Reconcile` from the Capp on: a site that is no placement is taken as a cluster
  unfoldable pub place : RcsConfig → Capp → Action C.Cluster ReconcileResult
  place config capp =
      if capp.spec.site == "" || contains config.spec.placements capp.spec.site
      then (do
        picked ←
            attempt (pick_decision capp config.spec.placements (placements_namespace_of config))
        deploy_picked capp picked)
      else deploy_on capp capp.spec.site

  -- `Reconcile`. Both kinds of error on reading the RCSConfig are returned.
  unfoldable pub reconcile : NamespacedName → Action C.Cluster ReconcileResult
  unfolding is_not_found
  reconcile req = do
    config_read ←
        query (C.get_config (record { name = rcs_config_name; namespace = rcs_config_namespace }))
    elim config_read [
      | failed e ↦ raise e
      | done config ↦ do
        capp_read ← query (C.get_capp req)
        elim capp_read [
          | failed e ↦ if is_not_found e then pure no_result else raise e
          | done capp ↦ place config capp
        ]
    ]
