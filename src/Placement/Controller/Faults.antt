-- ===== src/Placement/Controller/Faults.antt =====
-- When picking a cluster panics, when a run asks to be repeated, and when it reports success.
use rcs_ocm_deployer.Common.{String, ◌≡◌, ◌↔◌, ◌⊎◌, some, List, [], ◌∷◌, arith, eq_iff}
use rcs_ocm_deployer.Api.Workload.{Capp, RcsConfig}
use rcs_ocm_deployer.Runtime.Client.{Client, Externals}
use rcs_ocm_deployer.Runtime.Outcome.{Outcome, ok, err, panic, Error, done, failed}
use rcs_ocm_deployer.Runtime.Action.{
  Run, Write, caught, continue, fresh, update_capp, update_capp_status,
}
use rcs_ocm_deployer.Runtime.Reconcile.{ReconcileResult}
use rcs_ocm_deployer.Placement.Controller.{
  placement_to_use, pick_decision, deploy_on, not_picked, deploy_picked, placements_namespace_of,
  place, requeue_time,
}
use rcs_ocm_deployer.Placement.Controller.Handover.{writes-pick_decision}

module _ (E : Externals) (C : Client) where
  -- the Placement of that name can be read, and the list of its decisions cannot
  abbrev pub ListFails : String → String → C.Cluster → Type 0
  ListFails ref ns w =
      let got = C.get_placement (record { name = ref; namespace = ns }) w in
      let listed =
        C.list_decisions
          (record { label_key = E.placement_label; label_value = ref; namespace = ns }) got.1 in
      (got.0 ≡ done tt)
      × (((e : Error) × (E.requirement_error E.placement_label ref ≡ some e))
          ⊎ ((e : Error) × (listed.0 ≡ failed e)))

  -- Picking a cluster panics exactly in two cases: the Capp names no site and the RCSConfig no
  -- placement; or the Placement to use can be read and listing its decisions fails.
  pub pick_decision-eq-panic_iff :
      (capp : Capp) (placements : List String) (ns : String) (s : Run C.Cluster)
      → ((pick_decision E C capp placements ns s).0 ≡ panic) ↔ (
          ((capp.spec.site ≡ "") × (placements ≡ []))
          ⊎ ((ref : String) × (placement_to_use capp.spec.site placements ≡ some ref)
              × ListFails ref ns s.cluster))
  unfolding pick_decision
  pick_decision-eq-panic_iff capp placements ns s = ground (arith, eq_iff capp.spec.site "")

  -- The status and then the Capp were written.
  abbrev pub BothWritten : List Write → Type 0
  BothWritten (update_capp_status c ∷ update_capp a ∷ []) = Unit
  BothWritten _ = ⊥

  -- A result with its writes: done with both, or to be repeated with none.
  abbrev pub IsFinished : Outcome ReconcileResult × Run C.Cluster → Type 0
  IsFinished (ok r, s) =
      ((r.requeue_after ≡ 0) × BothWritten s.writes)
      ⊎ ((r.requeue_after ≡ requeue_time) × (s.writes ≡ []))
  IsFinished _ = Unit

  deploy_on-BothWritten :
      (capp : Capp) (cluster : String) (s : Run C.Cluster)
      → s.writes ≡ []
      → IsFinished (deploy_on E C capp cluster s)
  unfolding deploy_on
  deploy_on-BothWritten capp cluster s e = ground arith

  deploy_picked-IsFinished :
      (capp : Capp) (r : Outcome String × Run C.Cluster)
      → r.1.writes ≡ []
      → IsFinished (continue (caught r) (deploy_picked E C capp))
  unfolding deploy_picked not_picked
  deploy_picked-IsFinished capp (ok cluster, s) e = deploy_on-BothWritten capp cluster s e
  deploy_picked-IsFinished capp (err x, s) e = ground arith
  deploy_picked-IsFinished capp (panic, s) e = ground arith

  -- A Capp that was read is done with only when both writes were sent; a run that asks to be
  -- repeated after 20 seconds has written nothing. There is no third result without an error.
  pub place-IsFinished :
      (config : RcsConfig) (capp : Capp) (w : C.Cluster)
      → IsFinished (place E C config capp (fresh w))
  unfolding place
  place-IsFinished config capp w =
      let ns = placements_namespace_of config in
      let picked = pick_decision E C capp config.spec.placements ns (fresh w) in
      ground (
        arith,
        deploy_on-BothWritten capp capp.spec.site (fresh w),
        deploy_picked-IsFinished capp picked
            (writes-pick_decision E C capp config.spec.placements ns (fresh w)),
      )
