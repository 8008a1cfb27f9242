-- ===== src/Placement/Adapters.antt =====
-- internal/placement/adapters/placement.go and capp.go: reading the placement decisions, choosing
-- among them, and writing the choice to the Capp.
pub mod Decision
use rcs_ocm_deployer.Common.{
  String, ◌<>◌, not, Option, none, some, List, [], ◌∷◌, ◌==◌, if◌then◌else◌,
}
use rcs_ocm_deployer.Common.Dict.{Dict, insert}
use rcs_ocm_deployer.Api.Workload.{Capp}
use rcs_ocm_deployer.Api.Work.{PlacementDecision, PlacementDecisionList}
use rcs_ocm_deployer.Runtime.Outcome.{Error, errorf, error_text, done, failed}
use rcs_ocm_deployer.Runtime.Client.{Client, Externals}
use rcs_ocm_deployer.Runtime.Action.{Action, pure, raise, ◌>>=◌, update_capp, update_capp_status}
use rcs_ocm_deployer.Runtime.Calls.{query, send}
use rcs_ocm_deployer.Utils.{has_placement_key}

abbrev pub local_cluster : String
local_cluster = "local-cluster"

-- the loop over the decisions, with the `return ""` behind it
unfoldable pub first_remote : List String → String
first_remote [] = ""
first_remote (cluster_name ∷ decisions) =
    if not (cluster_name == local_cluster) then cluster_name else first_remote decisions

-- the tests on `pd.Status.Decisions`
unfoldable pub decided_cluster : List String → String
unfolding first_remote
decided_cluster [] = ""
decided_cluster (cluster_name ∷ []) = if cluster_name == "" then "" else cluster_name
decided_cluster (cluster_name ∷ next ∷ decisions) = first_remote (cluster_name ∷ next ∷ decisions)

-- `GetDecisionClusterName`
unfoldable pub get_decision_cluster_name : List PlacementDecision → String
unfolding decided_cluster
get_decision_cluster_name [] = ""
get_decision_cluster_name (pd ∷ items) = decided_cluster pd.decisions

module _ (E : Externals) (C : Client) where
  -- `GetPlacementDecisionList`: the pointer that it returns, nil beside an error, and the error
  unfoldable pub get_placement_decision_list :
      String
      → String
      → Action C.Cluster (record { list : Option PlacementDecisionList; error : Option Error })
  unfolding error_text
  get_placement_decision_list placement_ref placements_namespace =
      elim (E.requirement_error E.placement_label placement_ref) [
        | some e ↦ pure (record {
          list = none;
          error = some (
              errorf
                ("unable to create new PlacementDecision label requirement: " <> error_text e));
        })
        | none ↦ do
          listed ← query (
              C.list_decisions (record {
                label_key = E.placement_label;
                label_value = placement_ref;
                namespace = placements_namespace;
              }))
          elim listed [
            | failed e ↦ pure (record { list = none; error = some e })
            | done l ↦ pure (record { list = some l; error = none })
          ]
      ]

-- `AnnotationKeyHasPlacement`: this package has its own
abbrev pub annotation_key_has_placement : String
annotation_key_has_placement = "rcs.dana.io/has-placement"

-- the annotations with the cluster, on a new map if there was none
unfoldable pub set_has_placement : Option (Dict String) → String → Dict String
set_has_placement none cluster = insert annotation_key_has_placement cluster []
set_has_placement (some annotations) cluster =
    insert annotation_key_has_placement cluster annotations

-- the object that `AddCappHasPlacementAnnotation` sends
unfoldable pub with_placement : Capp → String → Capp
unfolding set_has_placement insert
with_placement c cluster = record c {
  metadata = record c.metadata { annotations = some (set_has_placement c.annotations cluster) };
}

module _ (C : Client) where
  -- `AddCappHasPlacementAnnotation`
  unfoldable pub add_capp_has_placement_annotation : Capp → String → Action C.Cluster (Unit {0})
  add_capp_has_placement_annotation c cluster = do
    let sent = with_placement c cluster
    updated ← send (update_capp sent) (C.update_capp sent)
    elim updated [ failed e ↦ raise e | done _ ↦ pure tt ]

  -- `UpdateCappDestination`. The status update writes the server's answer through the pointer, so
  -- the annotation is added to that object.
  unfoldable pub update_capp_destination : Capp → String → Action C.Cluster (Unit {0})
  unfolding error_text add_capp_has_placement_annotation
  update_capp_destination c cluster = do
    let placed : Capp = record c { status_site = cluster }
    updated ← send (update_capp_status placed) (C.update_capp_status placed)
    elim updated [
      | failed e ↦
          raise (errorf ("failed to update Capp status with selected site: " <> error_text e))
      | done answer ↦ add_capp_has_placement_annotation answer cluster
    ]
