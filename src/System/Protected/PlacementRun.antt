-- ===== src/System/Protected/PlacementRun.antt =====
-- A run of the placement controller.
use rcs_ocm_deployer.Common.{
  String, ◌≡◌, refl, Bool-cases, contains, ◌||◌, ◌==◌, ◌⊎◌, inl, inr, ◌<>◌, Option, none, some,
  List, arith, if◌then◌else◌,
}
use rcs_ocm_deployer.Api.Meta.{NamespacedName}
use rcs_ocm_deployer.Api.Workload.{Capp, RcsConfig}
use rcs_ocm_deployer.Api.Work.{PlacementDecisionList, ListOptions}
use rcs_ocm_deployer.Runtime.Outcome.{
  Outcome, ok, err, panic, Error, status, no_managed_cluster, errorf, is_not_found, error_text,
  Reply, done, failed,
}
use rcs_ocm_deployer.Runtime.Client.{Client, Externals}
use rcs_ocm_deployer.Runtime.Action.{
  Run, Action, fresh, pure, raise, abort, continue, caught, ◌>>=◌,
}
use rcs_ocm_deployer.Runtime.Calls.{query}
use rcs_ocm_deployer.Runtime.Reconcile.{ReconcileResult, no_result}
use rcs_ocm_deployer.Runtime.Shared.{IsShared}
use rcs_ocm_deployer.Utils.{rcs_config_name, rcs_config_namespace}
use rcs_ocm_deployer.Sync.Adapters.{contains_finalizer}
use rcs_ocm_deployer.Placement.Adapters.{get_placement_decision_list}
use rcs_ocm_deployer.Placement.Controller.{
  placement_to_use, pick_from, pick_decision, deploy_picked, not_picked, place,
  placements_namespace_of, reconcile,
}
use rcs_ocm_deployer.System.Protected.Updates.{IsProtected, IsProtected-IsStable}
use rcs_ocm_deployer.System.Protected.Placing.{IsSafe, IsSafe-IsStable, deploy_on-IsProtected}

module _ (E : Externals) (C : Client) (key work : NamespacedName)
    (G : IsShared C key work contains_finalizer) where
  -- the Capp was seen, and the cluster is protected
  abbrev Safe : Capp → C.Cluster → Type 0
  Safe = IsSafe E C key work G

  run-pick_from :
      (listed : record { list : Option PlacementDecisionList; error : Option Error })
      (s : Run C.Cluster)
      → (pick_from E C listed s).1 ≡ s
  unfolding pick_from
  run-pick_from listed s = ground arith

  module _ (c : Capp) where
    abbrev options : String → String → ListOptions
    options ref ns = record { label_key = E.placement_label; label_value = ref; namespace = ns }

    cluster-listed :
        (ref ns : String) (s : Run C.Cluster)
        → let v = (get_placement_decision_list E C ref ns s).1.cluster in
          (v ≡ s.cluster) ⊎ (v ≡ (C.list_decisions (options ref ns) s.cluster).1)
    unfolding get_placement_decision_list
    cluster-listed ref ns s = ground arith

    listed-IsSafe :
        (ref ns : String) (s : Run C.Cluster)
        → Safe c s.cluster
        → Safe c (get_placement_decision_list E C ref ns s).1.cluster
    listed-IsSafe ref ns s h = elim (cluster-listed ref ns s) [
      | inl e ↦ rw e h
      | inr e ↦
          rw e
            (IsSafe-IsStable E C key work G c _ _ (G.list_decisions (options ref ns) s.cluster) h)
    ]

    pick_from-IsSafe :
        (r : Outcome (record { list : Option PlacementDecisionList; error : Option Error })
          × Run C.Cluster)
        → Safe c r.1.cluster
        → Safe c (continue r (pick_from E C)).1.cluster
    pick_from-IsSafe (ok l, s) h = rw (run-pick_from l s) h
    pick_from-IsSafe (err e, s) h = h
    pick_from-IsSafe (panic, s) h = h

    -- the list behind a Placement that was found
    picked_behind :
        (ref ns : String) (s : Run C.Cluster) (r : Reply (Unit {0}))
        → Safe c s.cluster
        → Safe c
            ((elim r as (λ r. Action C.Cluster String) [
              | failed e ↦ raise (errorf ("failed to get placement: " <> error_text e))
              | done _ ↦ do listed ← get_placement_decision_list E C ref ns; pick_from E C listed
            ])
              s).1.cluster
    picked_behind ref ns s (failed e) h = h
    picked_behind ref ns s (done u) h =
        pick_from-IsSafe (get_placement_decision_list E C ref ns s) (listed-IsSafe ref ns s h)

    pick_by :
        (ns : String) (o : Option String) (s : Run C.Cluster)
        → Safe c s.cluster
        → Safe c
            ((elim o as (λ o. Action C.Cluster String) [
              | none ↦ abort
              | some ref ↦ do
                found ← query (C.get_placement (record { name = ref; namespace = ns }))
                elim found [
                  | failed e ↦ raise (errorf ("failed to get placement: " <> error_text e))
                  | done _ ↦ do
                    listed ← get_placement_decision_list E C ref ns
                    pick_from E C listed
                ]
            ])
              s).1.cluster
    pick_by ns none s h = h
    pick_by ns (some ref) s h =
        let at : NamespacedName = record { name = ref; namespace = ns } in
        let (found, w) = C.get_placement at s.cluster in
        picked_behind ref ns (record s { cluster = w }) found
          (IsSafe-IsStable E C key work G c _ _ (G.get_placement at s.cluster) h)

    pick_decision-IsSafe :
        (placements : List String) (ns : String) (s : Run C.Cluster)
        → Safe c s.cluster
        → Safe c (pick_decision E C c placements ns s).1.cluster
    unfolding pick_decision
    pick_decision-IsSafe placements ns s h =
        pick_by ns (placement_to_use c.spec.site placements) s h

    deploy_picked-IsProtected :
        (r : Outcome String × Run C.Cluster)
        → Safe c r.1.cluster
        → IsProtected C key work G (continue (caught r) (deploy_picked E C c)).1.cluster
    unfolding deploy_picked not_picked
    deploy_picked-IsProtected (ok cluster, s) h = deploy_on-IsProtected E C key work G c cluster s h
    deploy_picked-IsProtected (err (status r t), s) (p, seen) = p
    deploy_picked-IsProtected (err no_managed_cluster, s) (p, seen) = p
    deploy_picked-IsProtected (err (errorf t), s) (p, seen) = p
    deploy_picked-IsProtected (panic, s) (p, seen) = p

    place-IsProtected :
        (config : RcsConfig) (s : Run C.Cluster)
        → Safe c s.cluster
        → IsProtected C key work G (place E C config c s).1.cluster
    unfolding place
    place-IsProtected config s h =
        let pick = pick_decision E C c config.spec.placements (placements_namespace_of config) s in
        let picked = deploy_picked-IsProtected pick (pick_decision-IsSafe _ _ s h) in
        let site = deploy_on-IsProtected E C key work G c c.spec.site s h in
        elim (Bool-cases (c.spec.site == "" || contains config.spec.placements c.spec.site)) [
          | inl e ↦ rw e picked
          | inr e ↦ rw e site
        ]

  placed_behind :
      (config : RcsConfig) (s : Run C.Cluster) (r : Reply Capp)
      → (C.get_capp key s.cluster).0 ≡ r
      → IsProtected C key work G s.cluster
      → IsProtected C key work G
          ((do
            capp_read ← query (C.get_capp key)
            elim capp_read as (λ r. Action C.Cluster ReconcileResult) [
              | failed e ↦ if is_not_found e then pure no_result else raise e
              | done capp ↦ place E C config capp
            ])
            s).1.cluster
  placed_behind config s (failed e) h p =
      let (read, v) = C.get_capp key s.cluster in
      let kept = IsProtected-IsStable C key work G s.cluster v (G.get_capp key s.cluster) p in
      elim (Bool-cases (is_not_found e)) [ inl k ↦ rw (h, k) kept | inr k ↦ rw (h, k) kept ]
  placed_behind config s (done c) h p =
      let (read, v) = C.get_capp key s.cluster in
      rw h (
        place-IsProtected c config (record s { cluster = v })
          (
            IsProtected-IsStable C key work G s.cluster v (G.get_capp key s.cluster) p,
            G.seen s.cluster c h,
          ))

  config_behind :
      (s : Run C.Cluster) (r : Reply RcsConfig)
      → IsProtected C key work G s.cluster
      → IsProtected C key work G
          ((elim r as (λ r. Action C.Cluster ReconcileResult) [
            | failed e ↦ raise e
            | done config ↦ do
              capp_read ← query (C.get_capp key)
              elim capp_read [
                | failed e ↦ if is_not_found e then pure no_result else raise e
                | done capp ↦ place E C config capp
              ]
          ])
            s).1.cluster
  config_behind s (failed e) p = p
  config_behind s (done config) p = placed_behind config s _ refl p

  -- A run of the placement controller keeps the finalizer on while the ManifestWork is stored.
  pub reconcile-IsProtected :
      (w : C.Cluster)
      → IsProtected C key work G w
      → IsProtected C key work G (reconcile E C key (fresh w)).1.cluster
  unfolding reconcile
  reconcile-IsProtected w p =
      let config_key : NamespacedName = record {
        name = rcs_config_name;
        namespace = rcs_config_namespace;
      } in
      let v = (C.get_config config_key w).1 in
      config_behind (fresh v) (C.get_config config_key w).0
        (IsProtected-IsStable C key work G w v (G.get_config config_key w) p)
