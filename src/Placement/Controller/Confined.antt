-- ===== src/Placement/Controller/Confined.antt =====
-- What a run of the placement controller for one Capp leaves true.
use rcs_ocm_deployer.Common.{String, ◌≡◌, refl, ◌∙◌, Bool-cases, inl, inr, List, arith}
use rcs_ocm_deployer.Api.Meta.{NamespacedName}
use rcs_ocm_deployer.Api.Workload.{Capp, RcsConfig}
use rcs_ocm_deployer.Runtime.Outcome.{Outcome, ok, err, panic, is_not_found, Reply, done, failed}
use rcs_ocm_deployer.Runtime.Client.{Client, Externals}
use rcs_ocm_deployer.Runtime.Action.{Run, fresh, continue, caught}
use rcs_ocm_deployer.Runtime.Closed.{capp_key_of, IsClosed}
use rcs_ocm_deployer.Placement.Adapters.{
  with_placement, update_capp_destination, add_capp_has_placement_annotation,
}
use rcs_ocm_deployer.Placement.Controller.{
  rcs_config_name, rcs_config_namespace, pick_decision, deploy_on, deploy_picked, not_picked, place,
  placements_namespace_of, reconcile,
}

module _ (E : Externals) (C : Client) (mw_name : Capp → String) (key : NamespacedName)
    (Q : C.Cluster → Type 0) (K : IsClosed C mw_name key Q) where
  with_placement-capp_key_of :
      (c : Capp) (cluster : String) → capp_key_of (with_placement c cluster) ≡ capp_key_of c
  unfolding with_placement
  with_placement-capp_key_of c cluster = refl

  deploy_on-stays :
      (c : Capp) (cluster : String) (s : Run C.Cluster)
      → capp_key_of c ≡ key
      → Q s.cluster
      → Q (deploy_on E C c cluster s).1.cluster
  unfolding deploy_on update_capp_destination add_capp_has_placement_annotation
  deploy_on-stays c cluster s same q =
      let placed : Capp = record c { status_site = cluster } in
      let q' = K.update_capp_status placed s.cluster same q in
      let w = (C.update_capp_status placed s.cluster).1 in
      let q'' : (b : Capp)
          → (C.update_capp_status placed s.cluster).0 ≡ done b
          → Q (C.update_capp (with_placement b cluster) w).1 =
        λ b e.
          K.update_capp (with_placement b cluster) w
            (with_placement-capp_key_of b cluster ∙ K.answer_key s.cluster placed b same e) q' in
      grind (arith, q', q'')

  pick_decision-stays :
      (c : Capp) (placements : List String) (ns : String) (s : Run C.Cluster)
      → Q s.cluster
      → Q (pick_decision E C c placements ns s).1.cluster
  unfolding pick_decision
  pick_decision-stays c placements ns s q = grind (arith, K.get_placement, K.list_decisions)

  picked_stays :
      (c : Capp) (r : Outcome String × Run C.Cluster)
      → capp_key_of c ≡ key
      → Q r.1.cluster
      → Q (continue (caught r) (deploy_picked E C c)).1.cluster
  unfolding deploy_picked not_picked
  picked_stays c (ok cluster, s) same q = deploy_on-stays c cluster s same q
  picked_stays c (err e, s) same q = ground arith
  picked_stays c (panic, s) same q = q

  place-stays :
      (config : RcsConfig) (c : Capp) (s : Run C.Cluster)
      → capp_key_of c ≡ key
      → Q s.cluster
      → Q (place E C config c s).1.cluster
  unfolding place
  place-stays config c s same q =
      let ns = placements_namespace_of config in
      let pick = pick_decision E C c config.spec.placements ns s in
      ground (
        arith,
        deploy_on-stays c c.spec.site s same q,
        picked_stays c pick same (pick_decision-stays c config.spec.placements ns s q),
      )

  by_replies :
      (w : C.Cluster) (config_read : Reply RcsConfig) (capp_read : Reply Capp)
      → let config_key : NamespacedName = record {
        name = rcs_config_name;
        namespace = rcs_config_namespace;
      } in
        (C.get_config config_key w).0 ≡ config_read
        → (C.get_capp key (C.get_config config_key w).1).0 ≡ capp_read
        → Q w
        → Q (reconcile E C key (fresh w)).1.cluster
  unfolding reconcile
  by_replies w (failed e) capp_read h k q = rw h (K.get_config _ w q)
  by_replies w (done config) (failed e) h k q =
      let config_key : NamespacedName = record {
        name = rcs_config_name;
        namespace = rcs_config_namespace;
      } in
      let v = (C.get_config config_key w).1 in
      let read = K.get_capp key v (K.get_config config_key w q) in
      elim (Bool-cases (is_not_found e)) [ inl n ↦ rw (h, k, n) read | inr n ↦ rw (h, k, n) read ]
  by_replies w (done config) (done c) h k q =
      rw (h, k) (place-stays config c _ (K.read_key _ c k) (K.get_capp key _ (K.get_config _ w q)))

  -- A run leaves true what the calls for its Capp leave true.
  pub reconcile-stays : (w : C.Cluster) → Q w → Q (reconcile E C key (fresh w)).1.cluster
  reconcile-stays w q = by_replies w _ _ refl refl q
