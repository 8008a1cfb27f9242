-- ===== src/System/Deploy/Placed.antt =====
-- What the run of the placement controller leaves in the store.
use rcs_ocm_deployer.Common.{
  String, ◌≡◌, ◌⊎◌, inl, inr, refl, sym, true, false, Bool, not, List, some, arith, contains, ◌||◌,
  ◌==◌,
}
use rcs_ocm_deployer.Api.Meta.{NamespacedName}
use rcs_ocm_deployer.Api.Workload.{Capp, RcsConfig}
use rcs_ocm_deployer.Runtime.Outcome.{Outcome, ok, err, panic, done}
use rcs_ocm_deployer.Runtime.Client.{Client, Externals}
use rcs_ocm_deployer.Runtime.Quiet.{IsQuiet}
use rcs_ocm_deployer.Runtime.CappStore.{IsCappStore, capp_key, restamped}
use rcs_ocm_deployer.Runtime.Action.{Run, fresh, continue, caught}
use rcs_ocm_deployer.Runtime.Reconcile.{no_result}
use rcs_ocm_deployer.Utils.{rcs_config_name, rcs_config_namespace}
use rcs_ocm_deployer.Placement.Adapters.{with_placement}
use rcs_ocm_deployer.Placement.Controller.{
  pick_decision, deploy_on, deploy_picked, place, placements_namespace_of, reconcile,
}

module _ (E : Externals) (C : Client) (K : IsCappStore C) (c : Capp) (cluster : String) where
  -- The Capp is stored with the cluster in its status and in its annotations.
  abbrev pub IsPlaced : C.Cluster → Type 0
  IsPlaced w =
      (v₁ : String) × (v₂ : String) × (K.stored w (capp_key c)
        ≡ some (restamped (with_placement (restamped c v₁ cluster) cluster) v₂ cluster))

  deploy_on-IsPlaced :
      (s : Run C.Cluster)
      → K.stored s.cluster (capp_key c) ≡ some c
      → ((deploy_on E C c cluster s).0 ≡ ok no_result)
        × IsPlaced (deploy_on E C c cluster s).1.cluster
  unfolding deploy_on with_placement
  deploy_on-IsPlaced s h =
      let (v₁, (answer₁, stored₁)) =
        K.status_current s.cluster (record c { status_site = cluster }) c h refl in
      let b = restamped c v₁ cluster in
      let (v₂, (answer₂, stored₂)) =
        K.update_current (C.update_capp_status (record c { status_site = cluster }) s.cluster).1
          (with_placement b cluster) b stored₁ refl in
      rw (answer₁, answer₂) (refl, (v₁, v₂, stored₂))

  pub deploy_to :
      (x : String) (s : Run C.Cluster)
      → x ≡ cluster
      → K.stored s.cluster (capp_key c) ≡ some c
      → ((deploy_on E C c x s).0 ≡ ok no_result) × IsPlaced (deploy_on E C c x s).1.cluster
  deploy_to x s e h = rw e (deploy_on-IsPlaced s h)

  module _ (Q : IsQuiet C) where
    cluster-pick_decision :
        (placements : List String) (ns : String) (s : Run C.Cluster)
        → (pick_decision E C c placements ns s).1.cluster ≡ s.cluster
    unfolding pick_decision
    cluster-pick_decision placements ns s = grind (arith, Q.placement, Q.decisions)

    -- the site is none of the placements, and the cluster is the site
    abbrev takes_site : RcsConfig → Bool
    takes_site config = not (c.spec.site == "" || contains config.spec.placements c.spec.site)

    -- The cluster is the site of the Capp if that is none of the placements, and otherwise the one
    -- that the placement decisions give.
    abbrev pub Chooses : RcsConfig → C.Cluster → Type 0
    Chooses config w =
        ((takes_site config ≡ true) × (cluster ≡ c.spec.site))
        ⊎ ((takes_site config ≡ false)
            × ((pick_decision E C c config.spec.placements (placements_namespace_of config)
                  (fresh w)).0
                ≡ ok cluster))

    picked-IsPlaced :
        (r : Outcome String × Run C.Cluster) (w : C.Cluster)
        → r.0 ≡ ok cluster
        → r.1.cluster ≡ w
        → K.stored w (capp_key c) ≡ some c
        → let o = continue (caught r) (deploy_picked E C c) in
          (o.0 ≡ ok no_result) × IsPlaced o.1.cluster
    unfolding deploy_picked
    picked-IsPlaced (ok x, s) w e same h =
        let here : K.stored s.cluster (capp_key c) ≡ some c = rw same h in
        let chosen : x ≡ cluster = cc in deploy_to x s chosen here
    picked-IsPlaced (err x, s) w e same h = absurd (ground arith)
    picked-IsPlaced (panic, s) w e same h = absurd (ground arith)

    place-IsPlaced :
        (config : RcsConfig) (w : C.Cluster)
        → Chooses config w
        → K.stored w (capp_key c) ≡ some c
        → let o = place E C config c (fresh w) in (o.0 ≡ ok no_result) × IsPlaced o.1.cluster
    unfolding place
    place-IsPlaced config w (inl (site, same)) h =
        let own : (c.spec.site == "" || contains config.spec.placements c.spec.site) ≡ false =
          ground arith in
        rw own (deploy_to c.spec.site (fresh w) (sym same) h)
    place-IsPlaced config w (inr (picks, e)) h =
        let asks : (c.spec.site == "" || contains config.spec.placements c.spec.site) ≡ true =
          ground arith in
        let pick =
          pick_decision E C c config.spec.placements (placements_namespace_of config) (fresh w) in
        rw asks (picked-IsPlaced pick w e (cluster-pick_decision _ _ (fresh w)) h)

    -- On a quiet cluster, the run returns success and the Capp is stored with the cluster.
    pub reconcile-IsPlaced :
        (config : RcsConfig) (w : C.Cluster)
        → (C.get_config (record { name = rcs_config_name; namespace = rcs_config_namespace }) w).0
          ≡ done config
        → K.stored w (capp_key c) ≡ some c
        → Chooses config w
        → let o = reconcile E C (capp_key c) (fresh w) in
          (o.0 ≡ ok no_result) × IsPlaced o.1.cluster
    unfolding reconcile
    reconcile-IsPlaced config w read h chosen =
        let config_key : NamespacedName = record {
          name = rcs_config_name;
          namespace = rcs_config_namespace;
        } in
        rw (read, Q.config config_key w, K.get_found w (capp_key c) c h, Q.capp (capp_key c) w)
          (place-IsPlaced config w chosen h)
