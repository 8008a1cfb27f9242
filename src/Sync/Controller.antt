-- ===== src/Sync/Controller.antt =====
-- internal/sync/controller/sync_controller.go
pub mod Guarded
pub mod Deletion
pub mod Cleanup
pub mod Ends
pub mod Orphan
pub mod Bounds
pub mod Converge
pub mod Safe
pub mod Succeeds
pub mod Confined
pub mod Retried
use rcs_ocm_deployer.Common.{ℕ, String, ◌<>◌, Bool, Option, none, some, List, if◌then◌else◌}
use rcs_ocm_deployer.Common.Dict.{lookup_nil}
use rcs_ocm_deployer.Api.Meta.{NamespacedName}
use rcs_ocm_deployer.Api.Workload.{Capp}
use rcs_ocm_deployer.Api.Work.{Manifest, ManifestWork}
use rcs_ocm_deployer.Runtime.Outcome.{
  errorf, error_text, is_not_found, is_conflict, Reply, done, failed,
}
use rcs_ocm_deployer.Runtime.Client.{Client, Externals}
use rcs_ocm_deployer.Runtime.Action.{Action, pure, raise, attempt, ◌>>=◌, ◌>>◌, update_work}
use rcs_ocm_deployer.Runtime.Calls.{query, send}
use rcs_ocm_deployer.Runtime.Reconcile.{ReconcileResult, no_result}
use rcs_ocm_deployer.Utils.{has_placement_key, contains_placement_annotation}
use rcs_ocm_deployer.Sync.Adapters.{
  generate_mw_name, create_manifest_work, handle_capp_deletion, ensure_finalizer,
}
use rcs_ocm_deployer.Sync.Directors.{assemble_manifests}

-- `controllerName`
abbrev pub controller_name : String
controller_name = "SyncController"

-- `RequeueTime`
abbrev pub requeue_time : ℕ
requeue_time = 2

-- `CappPredicateFuncs`: its three functions make the same test of the event's object
unfoldable pub capp_predicate : Capp → Bool
capp_predicate c = contains_placement_annotation c

abbrev or_empty : Option String → String
or_empty none = ""
or_empty (some s) = s

-- `capp.Annotations[utils.AnnotationKeyHasPlacement]`
unfoldable pub managed_cluster_name : Capp → String
managed_cluster_name c = or_empty (lookup_nil has_placement_key c.annotations)

-- `mw.Spec.Workload.Manifests = manifests`
abbrev pub with_manifests : ManifestWork → List Manifest → ManifestWork
with_manifests mw manifests = record mw { manifests = manifests }

module _ (E : Externals) (C : Client) where
  -- `SyncManifestWork` from the read of the ManifestWork on
  unfoldable pub apply_manifests : Capp → List Manifest → Action C.Cluster ReconcileResult
  unfolding is_not_found is_conflict error_text create_manifest_work
  apply_manifests c manifests = do
    got ←
        query
          (C.get_work (record { name = generate_mw_name c; namespace = managed_cluster_name c }))
    elim got [
      | failed e ↦
          if is_not_found e
          then (do create_manifest_work E C c (managed_cluster_name c) manifests; pure no_result)
          else raise e
      | done mw ↦ do
        let sent = with_manifests mw manifests
        updated ← send (update_work sent) (C.update_work sent)
        elim updated [
          | failed e ↦
              if is_conflict e
              then pure (record { requeue_after = requeue_time })
              else raise (errorf ("failed to sync ManifestWork: " <> error_text e))
          | done _ ↦ pure no_result
        ]
    ]

  -- `SyncManifestWork` behind the call of the director
  unfoldable pub sync_assembled : Capp → Reply (List Manifest) → Action C.Cluster ReconcileResult
  unfolding error_text
  sync_assembled c (failed e) = raise (errorf ("failed to build ManifestWork: " <> error_text e))
  sync_assembled c (done manifests) = apply_manifests c manifests

  -- `SyncManifestWork`
  unfoldable pub sync_manifest_work : Capp → Action C.Cluster ReconcileResult
  sync_manifest_work c = do
    assembled ← attempt (assemble_manifests E C c)
    sync_assembled c assembled

  -- `Reconcile` on a Capp that could be read, by its deletion timestamp
  unfoldable pub reconcile_by : Option ℕ → Capp → Action C.Cluster ReconcileResult
  reconcile_by (some t) c = do
    handle_capp_deletion C c
    pure (record { requeue_after = requeue_time })
  reconcile_by none c = do ensure_finalizer C c; sync_manifest_work c

  unfoldable pub reconcile_capp : Capp → Action C.Cluster ReconcileResult
  unfolding reconcile_by
  reconcile_capp c = reconcile_by c.deletion_timestamp c

  -- `Reconcile`
  unfoldable pub reconcile : NamespacedName → Action C.Cluster ReconcileResult
  unfolding is_not_found
  reconcile req = do
    got ← query (C.get_capp req)
    elim got [
      | failed e ↦ if is_not_found e then pure no_result else raise e
      | done c ↦ reconcile_capp c
    ]
