-- ===== src/Tests/SyncRuns.antt =====
-- The theorems on the sync controller at concrete inputs.
use rcs_ocm_deployer.Common.{◌≡◌, refl, String, true, false, none, some, List, [], ◌∷◌, map}
use rcs_ocm_deployer.Common.Dict.{lookup_nil}
use rcs_ocm_deployer.Api.Meta.{zero_meta}
use rcs_ocm_deployer.Api.Workload.{Capp}
use rcs_ocm_deployer.Api.Work.{Manifest, ManifestWork}
use rcs_ocm_deployer.Runtime.Outcome.{ok, done}
use rcs_ocm_deployer.Runtime.Action.{fresh, create_work}
use rcs_ocm_deployer.Runtime.Reconcile.{no_result}
use rcs_ocm_deployer.Sync.Adapters.{
  generate_mw_name, capp_name_key, contains_finalizer, finalizer_added, finalizer_removed,
  set_manifest_work_capp_annotations, create_manifest_work,
}
use rcs_ocm_deployer.Sync.Adapters.Names.{generate_mw_name_inj, generate_mw_name_collides}
use rcs_ocm_deployer.Sync.Adapters.Annotations.{create_manifest_work-annotations}
use rcs_ocm_deployer.Sync.Adapters.Finalizers.{finalizer_added-removed}
use rcs_ocm_deployer.Sync.Directors.{assemble_manifests}
use rcs_ocm_deployer.Sync.Directors.Assembly.{
  IsAssembled, assembled, assemble_manifests-eq-assembled,
}
use rcs_ocm_deployer.Sync.Directors.Labels.{IsLabelled, assemble_manifests-IsLabelled}
use rcs_ocm_deployer.Sync.Directors.Auth
use rcs_ocm_deployer.Sync.Directors.Volumes
use rcs_ocm_deployer.Sync.Directors.Auth.{user_subject, users_loop, generate_subjects_from_users}
use rcs_ocm_deployer.Sync.Directors.Auth.Readers.{log_readers, subjects-eq-log_readers}
use rcs_ocm_deployer.Sync.Directors.Volumes.{get_resource_volumes}
use rcs_ocm_deployer.Sync.Controller.{
  reconcile, sync_manifest_work, sync_assembled, apply_manifests, reconcile_capp,
}
use rcs_ocm_deployer.Sync.Controller.Converge.{Holds, sync_manifest_work-Holds}
use rcs_ocm_deployer.Sync.Controller.Deletion.{IsCleanup, deletion_key, reconcile_capp-IsCleanup}
use rcs_ocm_deployer.Sync.Controller.Guarded.{IsGuarded, reconcile_capp-IsGuarded}
use rcs_ocm_deployer.Sync.Controller.Succeeds.{sync_manifest_work-eq-ok}
use rcs_ocm_deployer.Sync.Controller.Safe.{IsSafe, reconcile-IsSafe}
use rcs_ocm_deployer.Tests.Server.{Objects, server, server-IsQuiet, server-IsWorkStore}
use rcs_ocm_deployer.Tests.Data.{
  externals, request, web, placed_web, deleted_web, objects, admin_binding, work,
}

synced : (sync_manifest_work externals server placed_web (fresh objects)).0 ≡ ok no_result
unfolding sync_manifest_work sync_assembled apply_manifests assemble_manifests
    Volumes.assemble_manifests Volumes.create_config_map_manifests Volumes.create_secret_manifests
    get_resource_volumes Volumes.add_pull_secrets Volumes.gather_config_volumes
    Volumes.gather_config_value_from Volumes.gather_config_env_from Auth.assemble_manifests
    Auth.get_users_from_namespace
synced = refl

sync_manifest_work-Holds_example :
    (manifests : List Manifest) × (assembled server server-IsQuiet placed_web externals objects
      ≡ done manifests)
    × Holds externals server server-IsQuiet server-IsWorkStore placed_web
        (sync_manifest_work externals server placed_web (fresh objects)).1.cluster
        manifests
sync_manifest_work-Holds_example =
    sync_manifest_work-Holds externals server server-IsQuiet server-IsWorkStore placed_web
      (fresh objects) synced

assembled_web :
    (ms : List Manifest) × (assembled server server-IsQuiet placed_web externals objects ≡ done ms)
assembled_web = (_, refl)

sync_manifest_work-eq-ok_example :
    (sync_manifest_work externals server placed_web (fresh objects)).0 ≡ ok no_result
sync_manifest_work-eq-ok_example =
    sync_manifest_work-eq-ok externals server server-IsQuiet server-IsWorkStore placed_web
      assembled_web.0 (fresh objects) assembled_web.1 refl

reconcile_capp-IsGuarded_example :
    IsGuarded externals server placed_web objects
      (reconcile_capp externals server placed_web (fresh objects)).1.writes
reconcile_capp-IsGuarded_example = reconcile_capp-IsGuarded externals server placed_web objects refl

reconcile-IsSafe_example :
    IsSafe externals server
      (done web)
      objects
      (reconcile externals server request (fresh objects)).1.writes
reconcile-IsSafe_example = reconcile-IsSafe externals server request objects

abbrev with_work : Objects
with_work = record objects { works = work ∷ [] }

reconcile_capp-IsCleanup_example :
    IsCleanup server deleted_web with_work
      (reconcile_capp externals server deleted_web (fresh with_work)).1.writes
reconcile_capp-IsCleanup_example =
    reconcile_capp-IsCleanup externals server deleted_web with_work 7 refl

has_finalizer : contains_finalizer deleted_web ≡ true
unfolding contains_finalizer
has_finalizer = refl

found : server-IsWorkStore.stored with_work (deletion_key deleted_web) ≡ some work
unfolding generate_mw_name
found = refl

assemble_manifests-eq-assembled_example :
    IsAssembled server server-IsQuiet placed_web externals
      (assembled server server-IsQuiet placed_web externals objects)
      (fresh objects)
      (assemble_manifests externals server placed_web (fresh objects))
assemble_manifests-eq-assembled_example =
    assemble_manifests-eq-assembled server server-IsQuiet placed_web externals (fresh objects)

assemble_manifests-IsLabelled_example :
    IsLabelled (assemble_manifests externals server placed_web (fresh objects)).0
assemble_manifests-IsLabelled_example =
    assemble_manifests-IsLabelled server externals placed_web (fresh objects)

subjects-eq-log_readers_example :
    generate_subjects_from_users (users_loop (admin_binding ∷ []) [])
    ≡ map user_subject (log_readers (admin_binding ∷ []))
subjects-eq-log_readers_example = subjects-eq-log_readers (admin_binding ∷ [])

create_manifest_work-annotations_example :
    (mw : ManifestWork) × ((create_manifest_work externals server web "cluster-1" []
        (fresh objects)).1.writes
      ≡ create_work mw ∷ [])
    × (mw.metadata.name ≡ generate_mw_name web)
    × (mw.metadata.namespace ≡ "cluster-1")
    × (mw.manifests ≡ [])
    × (mw.metadata.annotations ≡ none)
    × (lookup_nil capp_name_key (set_manifest_work_capp_annotations mw web).metadata.annotations
        ≡ some web.name)
create_manifest_work-annotations_example =
    create_manifest_work-annotations externals server web "cluster-1" [] (fresh objects)

generate_mw_name_inj_example : web.name ≡ placed_web.name
unfolding generate_mw_name
generate_mw_name_inj_example = generate_mw_name_inj web placed_web refl refl

-- a Capp in a namespace, by name
abbrev capp_in : String → String → Capp
capp_in ns name = record web { metadata = record zero_meta { name = name; namespace = ns } }

generate_mw_name_collides_example :
    generate_mw_name (capp_in "a-b" "c") ≡ generate_mw_name (capp_in "a" "b-c")
generate_mw_name_collides_example =
    generate_mw_name_collides "a" "b" "c" (capp_in "a-b" "c") (capp_in "a" "b-c") refl refl refl
      refl

no_finalizer : contains_finalizer web ≡ false
unfolding contains_finalizer
no_finalizer = refl

finalizer_added-removed_example :
    (contains_finalizer (finalizer_added web) ≡ true)
    × (finalizer_removed (finalizer_added web) ≡ web)
finalizer_added-removed_example = finalizer_added-removed web no_finalizer
