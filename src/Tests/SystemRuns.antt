-- ===== src/Tests/SystemRuns.antt =====
-- The theorems on the system at concrete inputs.
use rcs_ocm_deployer.Common.Dict.{lookup}
use rcs_ocm_deployer.Api.Workload.{Capp}
use rcs_ocm_deployer.Sync.Controller.{managed_cluster_name, reconcile_capp}
use rcs_ocm_deployer.Sync.Controller.Orphan.{creation_key, reconcile_capp-leaves_work}
use rcs_ocm_deployer.Tests.Server.{Objects, server, server-IsQuiet, server-IsWorkStore}
use rcs_ocm_deployer.Common.{true, false, none, some, ◌≡◌, refl, [], ◌∷◌}
use rcs_ocm_deployer.Runtime.Action.{fresh, update_capp}
use rcs_ocm_deployer.Sync.Controller.Deletion.{deletion_key}
use rcs_ocm_deployer.Sync.Adapters.{generate_mw_name, contains_finalizer, finalizer_removed}
use rcs_ocm_deployer.Tests.Data.{externals, deleted_web, work, objects}

-- the ManifestWork lies where the annotation says, the status names another cluster
abbrev moved_web : Capp
moved_web = record deleted_web { status_site = "cluster-2" }

abbrev with_work : Objects
with_work = record objects { works = work ∷ [] }

has_finalizer : contains_finalizer moved_web ≡ true
unfolding contains_finalizer
has_finalizer = refl

nothing_there : server-IsWorkStore.stored with_work (deletion_key moved_web) ≡ none
unfolding generate_mw_name
nothing_there = refl

made_there : server-IsWorkStore.stored with_work (creation_key moved_web) ≡ some work
unfolding generate_mw_name managed_cluster_name lookup
made_there = refl

reconcile_capp-leaves_work_example :
    let r = reconcile_capp externals server moved_web (fresh with_work) in
    (r.1.writes ≡ update_capp (finalizer_removed moved_web) ∷ [])
    × (contains_finalizer (finalizer_removed moved_web) ≡ false)
    × (server-IsWorkStore.stored r.1.cluster (creation_key moved_web) ≡ some work)
reconcile_capp-leaves_work_example =
    reconcile_capp-leaves_work server server-IsQuiet server-IsWorkStore moved_web externals
      with_work 7 work (λ a w k. refl) refl has_finalizer nothing_there made_there
