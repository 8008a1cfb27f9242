-- ===== src/System/Deploy/Both.antt =====
-- Both runs, one after the other.
use rcs_ocm_deployer.Common.{String, ◌≡◌, ◌∙◌, refl, sym, ap, none, some, List}
use rcs_ocm_deployer.Api.Workload.{Capp, RcsConfig}
use rcs_ocm_deployer.Api.Work.{Manifest, ManifestWork}
use rcs_ocm_deployer.Runtime.Outcome.{ok, done}
use rcs_ocm_deployer.Runtime.Client.{Client, Externals}
use rcs_ocm_deployer.Runtime.Quiet.{IsQuiet}
use rcs_ocm_deployer.Runtime.WorkStore.{IsWorkStore}
use rcs_ocm_deployer.Runtime.CappStore.{IsCappStore, capp_key, restamped}
use rcs_ocm_deployer.Runtime.Action.{fresh}
use rcs_ocm_deployer.Runtime.Reconcile.{no_result}
use rcs_ocm_deployer.Utils.{rcs_config_name, rcs_config_namespace}
use rcs_ocm_deployer.Placement.Adapters.{with_placement}
use rcs_ocm_deployer.Placement.Controller as PlacementController
use rcs_ocm_deployer.Placement.Controller.Handover.{lookup-with_placement}
use rcs_ocm_deployer.Sync.Adapters.{generate_mw_name}
use rcs_ocm_deployer.Sync.Controller as SyncController
use rcs_ocm_deployer.Sync.Controller.{managed_cluster_name}
use rcs_ocm_deployer.Sync.Controller.Converge.{work_key}
use rcs_ocm_deployer.System.Deploy.Placed.{IsPlaced, Chooses, reconcile-IsPlaced}
use rcs_ocm_deployer.System.Deploy.Synced.{finalized, IsReady, reconcile-Succeeds}

module _ (E : Externals) (C : Client) (Q : IsQuiet C) (L : IsWorkStore C) (K : IsCappStore C) where
  module _ (c : Capp) (cluster v₁ v₂ : String) where
    -- the Capp behind the placement
    abbrev placed : Capp
    placed = restamped (with_placement (restamped c v₁ cluster) cluster) v₂ cluster

    placed-key : capp_key placed ≡ capp_key c
    unfolding with_placement
    placed-key = refl

    placed-live : placed.deletion_timestamp ≡ c.deletion_timestamp
    unfolding with_placement
    placed-live = refl

    placed-cluster : managed_cluster_name placed ≡ cluster
    unfolding managed_cluster_name
    placed-cluster = rw (lookup-with_placement (restamped c v₁ cluster) cluster) refl

    placed-work_key : work_key placed ≡ record { name = generate_mw_name c; namespace = cluster }
    unfolding generate_mw_name with_placement
    placed-work_key = rw placed-cluster refl

  module _ (config : RcsConfig) (c : Capp) (cluster : String) (manifests : List Manifest) where
    -- behind the run of the placement controller
    abbrev pub first : C.Cluster → C.Cluster
    first w = (PlacementController.reconcile E C (capp_key c) (fresh w)).1.cluster

    -- The store holds the manifests in the ManifestWork of the Capp, on the cluster.
    abbrev pub IsDeployed : C.Cluster → Type 0
    IsDeployed w =
        (mw : ManifestWork) × (L.stored w
            (record { name = generate_mw_name c; namespace = cluster })
          ≡ some mw)
        × (mw.manifests ≡ manifests)

    second_run :
        (w : C.Cluster)
        → c.deletion_timestamp ≡ none
        → IsPlaced E C K c cluster w
        → ((b : Capp)
            → K.stored w (capp_key c) ≡ some b
            → IsReady E C Q L K b manifests (finalized E C Q L K b manifests w).cluster)
        → let o = SyncController.reconcile E C (capp_key c) (fresh w) in
          (o.0 ≡ ok no_result) × IsDeployed o.1.cluster
    unfolding with_placement
    second_run w live (v₁, v₂, stored) ready =
        let b = placed c cluster v₁ v₂ in
        let (succeeded, (mw, at_key, its)) =
          reconcile-Succeeds E C Q L K b manifests w (placed-live c cluster v₁ v₂ ∙ live) stored
            (ready b stored) in
        let o = SyncController.reconcile E C (capp_key c) (fresh w) in
        (
          succeeded,
          (mw, ap (L.stored o.1.cluster) (sym (placed-work_key c cluster v₁ v₂)) ∙ at_key, its),
        )

    -- On a quiet cluster with a store of Capps and one of ManifestWorks, a Capp that is not being
    -- deleted is stored, the RCSConfig can be read, and the cluster is the site of the Capp, or the
    -- one that the placement decisions give where the site is empty or a placement. Then a run of
    -- the placement controller returns success. If afterwards the manifests of the stored Capp can
    -- be assembled and the server accepts the one write that is due, then a run of the sync
    -- controller returns success too, and the store holds the manifests in the ManifestWork of the
    -- Capp in the namespace of the cluster.
    pub deploys :
        (w : C.Cluster)
        → c.deletion_timestamp ≡ none
        → (C.get_config (record { name = rcs_config_name; namespace = rcs_config_namespace }) w).0
          ≡ done config
        → K.stored w (capp_key c) ≡ some c
        → Chooses E C K c cluster Q config w
        → ((b : Capp)
            → K.stored (first w) (capp_key c) ≡ some b
            → IsReady E C Q L K b manifests (finalized E C Q L K b manifests (first w)).cluster)
        → let o = SyncController.reconcile E C (capp_key c) (fresh (first w)) in
          ((PlacementController.reconcile E C (capp_key c) (fresh w)).0 ≡ ok no_result)
          × (o.0 ≡ ok no_result)
          × IsDeployed o.1.cluster
    deploys w live read h chosen ready =
        let (done_first, is_placed) = reconcile-IsPlaced E C K c cluster Q config w read h chosen in
        let (done_second, is_deployed) = second_run (first w) live is_placed ready in
        (done_first, done_second, is_deployed)
