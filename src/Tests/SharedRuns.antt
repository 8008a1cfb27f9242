-- ===== src/Tests/SharedRuns.antt =====
-- The finalizer of a Capp over runs for it and for another one.
use rcs_ocm_deployer.Common.{◌≡◌, ◌≢◌, refl, ◌∙◌, ap, eq_iff, [], ◌∷◌, arith}
use rcs_ocm_deployer.Api.Meta.{NamespacedName}
use rcs_ocm_deployer.Api.Workload.{Capp}
use rcs_ocm_deployer.Runtime.Action.{fresh}
use rcs_ocm_deployer.Placement.Controller as Placement
use rcs_ocm_deployer.Sync.Controller as Sync
use rcs_ocm_deployer.Sync.Adapters.{contains_finalizer, generate_mw_name}
use rcs_ocm_deployer.Sync.Controller.Deletion.{deletion_key}
use rcs_ocm_deployer.System.Protected.SyncRun.{IsSited}
use rcs_ocm_deployer.System.Protected.Updates.{IsProtected}
use rcs_ocm_deployer.System.Protected.Turns.{sync}
use rcs_ocm_deployer.System.Protected.Others.{
  IsOther, generate_mw_name-IsOther, SharedTurns, of_one, sync_of, placement_of, begun, further,
  SharedTurns-IsProtected,
}
use rcs_ocm_deployer.Tests.Server.Versions.Laws.{read_stored, versioned-IsShared}
use rcs_ocm_deployer.Tests.Server.Neighbours.{
  Street, street, own, street_shared, street-IsShared, street-IsApart,
}
use rcs_ocm_deployer.Tests.Data.{externals, placed_web, deleted_web, work, objects}

abbrev work_key : NamespacedName
work_key = record { name = "mw-create-shop-web"; namespace = "cluster-1" }

-- another Capp of the namespace, placed but without the finalizer
abbrev api : Capp
api = record placed_web { metadata = record placed_web.metadata { name = "api"; finalizers = [] } }

abbrev api_key : NamespacedName
api_key = record { name = "api"; namespace = "shop" }

-- the Capp is being deleted while its ManifestWork is stored
abbrev first : Street
first = record {
  shelf = record { capp = deleted_web; objects = record objects { works = work ∷ [] } };
  neighbour = api;
}

-- behind a run that deletes the ManifestWork
abbrev second : Street
second = (Sync.reconcile externals street own (fresh first)).1.cluster

-- behind a run for the other Capp
abbrev third : Street
third = (Sync.reconcile externals street api_key (fresh second)).1.cluster

deleted_web-IsWork : deletion_key deleted_web ≡ work_key
unfolding generate_mw_name
deleted_web-IsWork = refl

first-IsSited : IsSited externals street own work_key (street_shared work_key) first
first-IsSited c t h e = ap deletion_key (read_stored own first.shelf c h) ∙ deleted_web-IsWork

web-name : generate_mw_name deleted_web ≡ work_key.name
unfolding generate_mw_name
web-name = refl

api-ne-web : api_key.name ≢ deleted_web.name
api-ne-web e = absurd (ground (arith, eq_iff "api" "web"))

api-IsOther : IsOther own work_key api_key
api-IsOther = generate_mw_name-IsOther deleted_web work_key api_key web-name refl api-ne-web

turns :
    SharedTurns externals street own work_key
      (street_shared work_key)
      (street-IsApart work_key)
      first
      (Placement.reconcile externals street api_key (fresh third)).1.cluster
turns =
    further
      (further (further begun (of_one (sync first first-IsSited)))
        (sync_of api_key second api-IsOther))
      (placement_of api_key third api-IsOther)

first-IsProtected : IsProtected street own work_key (street_shared work_key) first
unfolding street-IsShared versioned-IsShared contains_finalizer
first-IsProtected h = refl

SharedTurns-IsProtected_example :
    IsProtected street own work_key
      (street_shared work_key)
      (Placement.reconcile externals street api_key (fresh third)).1.cluster
SharedTurns-IsProtected_example =
    SharedTurns-IsProtected externals street own work_key (street_shared work_key)
      (street-IsApart work_key) turns first-IsProtected
