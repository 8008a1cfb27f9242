-- ===== src/System/Handover.antt =====
-- The placement controller hands a Capp over to the sync controller by its annotation: the event
-- filters of the two controllers split the Capps by it.
use rcs_ocm_deployer.Common.{String, ◌≡◌, refl, ◌≢◌, ◌⊎◌, true, false, List, [], ◌∷◌, arith, eq_iff}
use rcs_ocm_deployer.Api.Workload.{Capp, RcsConfig}
use rcs_ocm_deployer.Runtime.Outcome.{Outcome, ok, err, panic, Reply, done, failed}
use rcs_ocm_deployer.Runtime.Client.{Client, Externals}
use rcs_ocm_deployer.Runtime.Action.{
  Run, Write, caught, continue, fresh, update_capp, update_capp_status,
}
use rcs_ocm_deployer.Runtime.Reconcile.{ReconcileResult}
use rcs_ocm_deployer.Utils.{contains_placement_annotation}
use rcs_ocm_deployer.Utils.Placed.{contains_placement_annotation_iff}
use rcs_ocm_deployer.Placement.Adapters.{with_placement}
use rcs_ocm_deployer.Placement.Controller as PlacementController
use rcs_ocm_deployer.Placement.Controller.{
  pick_decision, deploy_on, deploy_picked, not_picked, place, requeue_time, placements_namespace_of,
}
use rcs_ocm_deployer.Placement.Controller.Handover.{
  lookup-with_placement, writes-pick_decision, pick_decision-ne_empty,
}
use rcs_ocm_deployer.Sync.Controller as SyncController

-- The status was sent with a cluster, and with it a Capp that the sync controller takes and deploys
-- on that cluster, and that the placement controller no longer takes.
abbrev pub IsPassedOn : List Write → Type 0
IsPassedOn (update_capp_status c ∷ update_capp a ∷ []) =
    (SyncController.capp_predicate a ≡ true)
    × (PlacementController.capp_predicate a ≡ false)
    × (SyncController.managed_cluster_name a ≡ c.status_site)
    × (c.status_site ≢ "")
IsPassedOn _ = ⊥

-- Only the status was sent, of a Capp that the placement controller still takes.
abbrev pub IsKept : List Write → Type 0
IsKept (update_capp_status c ∷ []) =
    (PlacementController.capp_predicate c ≡ true) × (SyncController.capp_predicate c ≡ false)
IsKept _ = ⊥

-- What a run has sent, by how it ended.
abbrev pub HandsOver : {W : Type 0} → Outcome ReconcileResult × Run W → Type 0
HandsOver (ok r, s) =
    ((r.requeue_after ≡ 0) × IsPassedOn s.writes)
    ⊎ ((r.requeue_after ≡ requeue_time) × (s.writes ≡ []))
HandsOver (err e, s) = (s.writes ≡ []) ⊎ IsKept s.writes ⊎ IsPassedOn s.writes
HandsOver (panic, s) = s.writes ≡ []

with_placement-IsPassedOn :
    (c a : Capp)
    → c.status_site ≢ ""
    → IsPassedOn (update_capp_status c ∷ update_capp (with_placement a c.status_site) ∷ [])
unfolding SyncController.capp_predicate PlacementController.capp_predicate
    SyncController.managed_cluster_name
with_placement-IsPassedOn c a ne =
    let e = lookup-with_placement a c.status_site in
    let placed : contains_placement_annotation (with_placement a c.status_site) ≡ true =
      (contains_placement_annotation_iff (with_placement a c.status_site)).1
        (c.status_site, e, ne) in
    ground arith

status-IsKept :
    (c : Capp) (cluster : String)
    → PlacementController.capp_predicate c ≡ true
    → IsKept (update_capp_status (record c { status_site = cluster }) ∷ [])
unfolding SyncController.capp_predicate PlacementController.capp_predicate
    contains_placement_annotation
status-IsKept c cluster h = ground arith

module _ (E : Externals) (C : Client) (capp : Capp)
    (taken : PlacementController.capp_predicate capp ≡ true) where
  -- from the answer to the update of the status on
  deploy_answered-HandsOver :
      (cluster : String) (s : Run C.Cluster) (answer : Reply Capp)
      → cluster ≢ ""
      → s.writes ≡ []
      → (C.update_capp_status (record capp { status_site = cluster }) s.cluster).0 ≡ answer
      → HandsOver (deploy_on E C capp cluster s)
  unfolding deploy_on
  deploy_answered-HandsOver cluster s (failed x) ne e h =
      let kept = status-IsKept capp cluster taken in ground arith
  deploy_answered-HandsOver cluster s (done a) ne e h =
      let passed_on = with_placement-IsPassedOn (record capp { status_site = cluster }) a ne in
      ground arith

  deploy_on-HandsOver :
      (cluster : String) (s : Run C.Cluster)
      → cluster ≢ ""
      → s.writes ≡ []
      → HandsOver (deploy_on E C capp cluster s)
  deploy_on-HandsOver cluster s ne e = deploy_answered-HandsOver cluster s _ ne e refl

  deploy_picked-HandsOver :
      (r : Outcome String × Run C.Cluster)
      → ((cluster : String) → r.0 ≡ ok cluster → cluster ≢ "")
      → r.1.writes ≡ []
      → HandsOver (continue (caught r) (deploy_picked E C capp))
  unfolding deploy_picked not_picked
  deploy_picked-HandsOver (ok cluster, s) h e = deploy_on-HandsOver cluster s (h cluster refl) e
  deploy_picked-HandsOver (err x, s) h e = ground arith
  deploy_picked-HandsOver (panic, s) h e = ground arith

  -- Whatever the client answers, for a Capp that the filter of the placement controller lets pass:
  -- a run that ends without an error has either sent the status and then a Capp that passes the
  -- filter of the sync controller, fails that of the placement controller, and is deployed on the
  -- cluster of that status, which is not empty; or it has sent nothing and asks to be repeated. A
  -- run that ends with an error has sent nothing, both, or only the status, of a Capp that the
  -- placement controller still takes and the sync controller does not. A run that panics has sent
  -- nothing.
  pub place-HandsOver :
      (config : RcsConfig) (w : C.Cluster) → HandsOver (place E C config capp (fresh w))
  unfolding place
  place-HandsOver config w =
      let ns = placements_namespace_of config in
      let picked = pick_decision E C capp config.spec.placements ns (fresh w) in
      ground (
        arith,
        eq_iff capp.spec.site "",
        deploy_on-HandsOver capp.spec.site (fresh w),
        deploy_picked-HandsOver picked
            (λ cluster. pick_decision-ne_empty E C capp config.spec.placements ns cluster (fresh w))
            (writes-pick_decision E C capp config.spec.placements ns (fresh w)),
      )
