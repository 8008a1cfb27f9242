-- ===== src/Tests/PlacementRuns.antt =====
-- The theorems on the placement controller at concrete inputs.
use rcs_ocm_deployer.Common.{
  ◌≡◌, refl, ◌≢◌, ◌↔◌, ◌⊎◌, String, some, List, [], ◌∷◌, arith, eq_iff, true,
}
use rcs_ocm_deployer.Common.Dict.{lookup_nil}
use rcs_ocm_deployer.Api.Work.{PlacementDecision}
use rcs_ocm_deployer.Runtime.Outcome.{panic}
use rcs_ocm_deployer.Runtime.Action.{fresh, update_capp, update_capp_status}
use rcs_ocm_deployer.Utils.{has_placement_key, contains_placement_annotation}
use rcs_ocm_deployer.Utils.Placed.{contains_placement_annotation_iff}
use rcs_ocm_deployer.Placement.Adapters.{get_decision_cluster_name, with_placement}
use rcs_ocm_deployer.Placement.Adapters.Decision.{Chosen, get_decision_cluster_name_iff}
use rcs_ocm_deployer.Placement.Controller.{
  capp_predicate, reconcile, place, pick_decision, placement_to_use, deploy_picked, deploy_on,
}
use rcs_ocm_deployer.Placement.Controller.Handover.{IsHandover, reconcile-IsHandover}
use rcs_ocm_deployer.Placement.Controller.Faults.{
  ListFails, IsFinished, pick_decision-eq-panic_iff, place-IsFinished,
}
use rcs_ocm_deployer.System.Handover.{HandsOver, place-HandsOver}
use rcs_ocm_deployer.Tests.Server.{server}
use rcs_ocm_deployer.Tests.Data.{externals, request, web, placed_web, config, objects}

not_placed : capp_predicate web ≡ true
unfolding capp_predicate contains_placement_annotation
not_placed = refl

place-HandsOver_example : HandsOver (place externals server config web (fresh objects))
place-HandsOver_example = place-HandsOver externals server web not_placed config objects

reconcile-IsHandover_example :
    IsHandover (reconcile externals server request (fresh objects)).1.writes
reconcile-IsHandover_example = reconcile-IsHandover externals server request objects

place-IsFinished_example :
    IsFinished externals server (place externals server config web (fresh objects))
place-IsFinished_example = place-IsFinished externals server config web objects

abbrev no_placements : List String
no_placements = []

pick_decision-eq-panic_iff_example :
    ((pick_decision externals server web no_placements "default" (fresh objects)).0 ≡ panic) ↔ (
      ((web.spec.site ≡ "") × (no_placements ≡ []))
      ⊎ ((ref : String) × (placement_to_use web.spec.site no_placements ≡ some ref)
          × ListFails externals server ref "default" objects))
pick_decision-eq-panic_iff_example =
    pick_decision-eq-panic_iff externals server web no_placements "default" (fresh objects)

contains_placement_annotation_iff_example :
    (contains_placement_annotation placed_web ≡ true)
    ↔ ((v : String) × (lookup_nil has_placement_key placed_web.annotations ≡ some v) × (v ≢ ""))
contains_placement_annotation_iff_example = contains_placement_annotation_iff placed_web

abbrev decisions : List PlacementDecision
decisions = record { decisions = "local-cluster" ∷ "cluster-1" ∷ [] } ∷ []

abbrev cluster : String
cluster = "cluster-1"

named : cluster ≢ ""
named = ground (arith, eq_iff cluster "")

get_decision_cluster_name_iff_example : (get_decision_cluster_name decisions ≡ cluster) ↔ (
    (pd : PlacementDecision) × (rest : List PlacementDecision) × (decisions ≡ pd ∷ rest)
    × Chosen pd.decisions cluster)
get_decision_cluster_name_iff_example = get_decision_cluster_name_iff decisions cluster named

-- the run places the Capp on the decided cluster
placed_run :
    (reconcile externals server request (fresh objects)).1.writes
    ≡ update_capp_status (record web { status_site = "cluster-1" })
      ∷ update_capp (record web {
        metadata = record web.metadata {
          annotations = some ((has_placement_key, "cluster-1") ∷ []);
        };
        status_site = "cluster-1";
      })
      ∷ []
unfolding reconcile place pick_decision get_decision_cluster_name deploy_picked deploy_on
    with_placement
placed_run = refl
