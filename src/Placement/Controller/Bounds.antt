-- ===== src/Placement/Controller/Bounds.antt =====
-- How many calls of the API server a run of the placement controller makes.
use rcs_ocm_deployer.Common.{ℕ, ◌+◌, ◌≤◌, String, ◌≡◌, refl, List, arith}
use rcs_ocm_deployer.Api.Meta.{NamespacedName}
use rcs_ocm_deployer.Api.Workload.{Capp, RcsConfig}
use rcs_ocm_deployer.Runtime.Outcome.{Outcome, ok, err, panic, Reply, done, failed}
use rcs_ocm_deployer.Runtime.Client.{Client, Externals}
use rcs_ocm_deployer.Runtime.Counted.{counted, calls}
use rcs_ocm_deployer.Runtime.Action.{Run, fresh, continue, caught}
use rcs_ocm_deployer.Utils.{rcs_config_name, rcs_config_namespace}
use rcs_ocm_deployer.Placement.Controller.{
  pick_decision, deploy_on, deploy_picked, not_picked, place, placements_namespace_of, reconcile,
}

module _ (E : Externals) (C : Client) where
  calls-deploy_on-le :
      (c : Capp) (cluster : String) (s : Run (C.Cluster × ℕ))
      → calls (deploy_on E (counted C) c cluster s) ≤ s.cluster.1 + 2
  unfolding deploy_on
  calls-deploy_on-le c cluster s = ground arith

  calls-pick_decision-le :
      (c : Capp) (placements : List String) (ns : String) (s : Run (C.Cluster × ℕ))
      → calls (pick_decision E (counted C) c placements ns s) ≤ s.cluster.1 + 2
  unfolding pick_decision
  calls-pick_decision-le c placements ns s = ground arith

  calls-deploy_picked-le :
      (c : Capp) (n : ℕ) (r : Outcome String × Run (C.Cluster × ℕ))
      → r.1.cluster.1 ≤ n
      → calls (continue (caught r) (deploy_picked E (counted C) c)) ≤ n + 2
  unfolding deploy_picked not_picked
  calls-deploy_picked-le c n (ok cluster, s) h = omega (arith, calls-deploy_on-le c cluster s)
  calls-deploy_picked-le c n (err e, s) h = ground arith
  calls-deploy_picked-le c n (panic, s) h = omega arith

  calls-place-le :
      (config : RcsConfig) (c : Capp) (s : Run (C.Cluster × ℕ))
      → calls (place E (counted C) config c s) ≤ s.cluster.1 + 4
  unfolding place
  calls-place-le config c s =
      let ns = placements_namespace_of config in
      let pick = pick_decision E (counted C) c config.spec.placements ns s in
      ground (
        arith,
        calls-deploy_on-le c c.spec.site s,
        calls-deploy_picked-le c (s.cluster.1 + 2) pick
            (calls-pick_decision-le c config.spec.placements ns s),
      )

  by_replies :
      (req : NamespacedName) (w : C.Cluster) (config_read : Reply RcsConfig)
      (capp_read : Reply Capp)
      → let config_key : NamespacedName = record {
        name = rcs_config_name;
        namespace = rcs_config_namespace;
      } in
        (C.get_config config_key w).0 ≡ config_read
        → (C.get_capp req (C.get_config config_key w).1).0 ≡ capp_read
        → calls (reconcile E (counted C) req (fresh (w, 0))) ≤ 6
  unfolding reconcile
  by_replies req w (failed e) capp_read h k = rw h (omega arith)
  by_replies req w (done config) (failed e) h k = ground arith
  by_replies req w (done config) (done c) h k = rw (h, k) (calls-place-le config c _)

  -- Whatever the client answers, a run makes at most six calls of the API server.
  pub calls-reconcile-le_six :
      (req : NamespacedName) (w : C.Cluster)
      → calls (reconcile E (counted C) req (fresh (w, 0))) ≤ 6
  calls-reconcile-le_six req w = by_replies req w _ _ refl refl
