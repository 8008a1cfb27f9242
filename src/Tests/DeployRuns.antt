-- ===== src/Tests/DeployRuns.antt =====
-- The theorem on both runs at concrete values.
use rcs_ocm_deployer.Common.{◌≡◌, refl, some, List, [], ◌∷◌, inr, arith}
use rcs_ocm_deployer.Api.Workload.{Capp}
use rcs_ocm_deployer.Api.Work.{Manifest}
use rcs_ocm_deployer.Runtime.Outcome.{ok, done}
use rcs_ocm_deployer.Runtime.Action.{fresh}
use rcs_ocm_deployer.Runtime.CappStore.{capp_key}
use rcs_ocm_deployer.Runtime.Reconcile.{no_result}
use rcs_ocm_deployer.Utils.{has_placement_key}
use rcs_ocm_deployer.Placement.Controller as Placement
use rcs_ocm_deployer.Placement.Controller.{pick_decision, deploy_on, deploy_picked}
use rcs_ocm_deployer.Placement.Adapters.{with_placement, get_decision_cluster_name}
use rcs_ocm_deployer.Sync.Controller as Sync
use rcs_ocm_deployer.Sync.Adapters.{ensure_finalizer, finalizer_added, contains_finalizer}
use rcs_ocm_deployer.Sync.Directors.Assembly.{assembled}
use rcs_ocm_deployer.System.Deploy.Placed.{Chooses}
use rcs_ocm_deployer.System.Deploy.Synced.{finalized, IsReady}
use rcs_ocm_deployer.System.Deploy.Both.{first, IsDeployed, deploys}
use rcs_ocm_deployer.Tests.Server.Versions.{Shelf, versioned}
use rcs_ocm_deployer.Tests.Server.Versions.Stores.{
  versioned-IsQuiet, versioned-IsWorkStore, versioned-IsCappStore, stored_capp,
}
use rcs_ocm_deployer.Tests.Data.{externals, web, config, objects}

abbrev shelf : Shelf
shelf = record { capp = web; objects = objects }

-- the Capp behind the placement
abbrev on_cluster_1 : Capp
on_cluster_1 = record web {
  metadata = record web.metadata {
    resource_version = "vv";
    annotations = some ((has_placement_key, "cluster-1") ∷ []);
  };
  status_site = "cluster-1";
}

abbrev placed_shelf : Shelf
placed_shelf = record { capp = on_cluster_1; objects = objects }

assembled_web :
    (ms : List Manifest) × (assembled versioned versioned-IsQuiet on_cluster_1 externals
        placed_shelf
      ≡ done ms)
assembled_web = (_, refl)

abbrev manifests : List Manifest
manifests = assembled_web.0

abbrev Ready : Capp → Shelf → Type 0
Ready b w =
    IsReady externals versioned versioned-IsQuiet versioned-IsWorkStore versioned-IsCappStore b
      manifests
      (finalized externals versioned versioned-IsQuiet versioned-IsWorkStore versioned-IsCappStore b
        manifests w).cluster

first-eq :
    first externals versioned versioned-IsQuiet versioned-IsWorkStore versioned-IsCappStore config
      web "cluster-1" manifests shelf
    ≡ placed_shelf
unfolding Placement.reconcile Placement.place pick_decision get_decision_cluster_name deploy_picked
    deploy_on with_placement
first-eq = refl

on_cluster_1-Ready : Ready on_cluster_1 placed_shelf
unfolding ensure_finalizer finalizer_added contains_finalizer assembled_web
on_cluster_1-Ready = (refl, refl)

shelf-Chooses :
    Chooses externals versioned versioned-IsCappStore web "cluster-1" versioned-IsQuiet config shelf
unfolding pick_decision get_decision_cluster_name
shelf-Chooses = inr (refl, refl)

Ready-at : (b : Capp) (w : Shelf) → b ≡ on_cluster_1 → w ≡ placed_shelf → Ready b w
Ready-at b w e same = rw (e, same) on_cluster_1-Ready

placed_capp : (b : Capp) → stored_capp placed_shelf (capp_key web) ≡ some b → b ≡ on_cluster_1
placed_capp b h = ground arith

ready :
    (w : Shelf) (b : Capp) → w ≡ placed_shelf → stored_capp w (capp_key web) ≡ some b → Ready b w
ready w b same h = Ready-at b w (placed_capp b (rw same at h)) same

deploys_example :
    let w =
      first externals versioned versioned-IsQuiet versioned-IsWorkStore versioned-IsCappStore config
        web "cluster-1" manifests shelf in
    let o = Sync.reconcile externals versioned (capp_key web) (fresh w) in
    ((Placement.reconcile externals versioned (capp_key web) (fresh shelf)).0 ≡ ok no_result)
    × (o.0 ≡ ok no_result)
    × IsDeployed externals versioned versioned-IsQuiet versioned-IsWorkStore versioned-IsCappStore
        config web "cluster-1" manifests o.1.cluster
deploys_example =
    deploys externals versioned versioned-IsQuiet versioned-IsWorkStore versioned-IsCappStore config
      web "cluster-1" manifests shelf refl refl refl shelf-Chooses
      (λ b.
        ready
          (first externals versioned versioned-IsQuiet versioned-IsWorkStore versioned-IsCappStore
            config web "cluster-1" manifests shelf)
          b first-eq)
