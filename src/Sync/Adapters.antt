-- ===== src/Sync/Adapters.antt =====
-- internal/sync/adapters/capp.go and manifestwork.go: the finalizer of a Capp, and making and
-- deleting its ManifestWork.
pub mod Names
pub mod Annotations
pub mod Finalizers
use rcs_ocm_deployer.Common.{
  String, ◌<>◌, Bool, some, List, [], ◌∷◌, ◌++◌, ◌==◌, contains, if◌then◌else◌,
}
use rcs_ocm_deployer.Common.Dict.{insert}
use rcs_ocm_deployer.Api.Meta.{zero_meta, zero_type}
use rcs_ocm_deployer.Api.Workload.{Capp}
use rcs_ocm_deployer.Api.Work.{Manifest, ManifestWork, ManifestConfigOption}
use rcs_ocm_deployer.Runtime.Outcome.{errorf, error_text, is_not_found, done, failed}
use rcs_ocm_deployer.Runtime.Client.{Client, Externals}
use rcs_ocm_deployer.Runtime.Action.{
  Action, pure, raise, attempt, ◌>>=◌, ◌>>◌, update_capp, create_work, delete_work, normal, warning,
}
use rcs_ocm_deployer.Runtime.Calls.{query, send, record_event}
use rcs_ocm_deployer.Utils.{event_work_created, event_work_creation_failed}

abbrev pub finalizer_cleanup_capp : String
finalizer_cleanup_capp = "dana.io/capp-cleanup"

abbrev pub manifest_work_prefix : String
manifest_work_prefix = "mw-create-"

abbrev pub capp_name_key : String
capp_name_key = "rcs.dana.io/capp-name"

abbrev pub capp_namespace_key : String
capp_namespace_key = "rcs.dana.io/capp-namespace"

-- `GenerateMWName`
unfoldable pub generate_mw_name : Capp → String
generate_mw_name c = manifest_work_prefix <> (c.namespace <> ("-" <> c.name))

-- `GenerateManifestWorkGeneric`
unfoldable pub generate_manifest_work_generic :
    String → String → List Manifest → List ManifestConfigOption → ManifestWork
generate_manifest_work_generic name ns manifests options = record {
  type_meta = zero_type;
  metadata = record zero_meta { name = name; namespace = ns };
  manifests = manifests;
  manifest_configs = options;
}

-- `SetManifestWorkCappAnnotations`: the object as it stands at the end of the function. The
-- function has its own copy of the object, so the caller sees nothing of this.
unfoldable pub set_manifest_work_capp_annotations : ManifestWork → Capp → ManifestWork
unfolding insert
set_manifest_work_capp_annotations mw c = record mw {
  metadata = record mw.metadata {
    annotations = some (insert capp_namespace_key c.namespace (insert capp_name_key c.name []));
  };
}

-- `controllerutil.ContainsFinalizer`
unfoldable pub contains_finalizer : Capp → Bool
contains_finalizer c = contains c.finalizers finalizer_cleanup_capp

-- `controllerutil.RemoveFinalizer`, on the finalizers
unfoldable pub without_finalizer : List String → List String
without_finalizer [] = []
without_finalizer (f ∷ finalizers) =
    let rest = without_finalizer finalizers in
    if f == finalizer_cleanup_capp then rest else f ∷ rest

-- the object that `removeFinalizer` sends
unfoldable pub finalizer_removed : Capp → Capp
unfolding without_finalizer
finalizer_removed c = record c {
  metadata = record c.metadata { finalizers = without_finalizer c.finalizers };
}

-- the object that `EnsureFinalizer` sends, after `controllerutil.AddFinalizer`
unfoldable pub finalizer_added : Capp → Capp
finalizer_added c = record c {
  metadata = record c.metadata { finalizers = c.finalizers ++ finalizer_cleanup_capp ∷ [] };
}

abbrev pub zero_option : ManifestConfigOption
zero_option = record { group = ""; resource = ""; name = ""; namespace = "" }

module _ (E : Externals) (C : Client) where
  -- `CreateManifestWork`. What `SetManifestWorkCappAnnotations` makes is bound and not sent.
  unfoldable pub create_manifest_work : Capp → String → List Manifest → Action C.Cluster (Unit {0})
  unfolding generate_manifest_work_generic set_manifest_work_capp_annotations error_text
  create_manifest_work c cluster manifests = do
    let mw_name = generate_mw_name c
    let mw =
        generate_manifest_work_generic (generate_mw_name c) cluster manifests (zero_option ∷ [])
    let _copy = set_manifest_work_capp_annotations mw c
    created ← send (create_work mw) (C.create_work mw)
    elim created [
      | failed e ↦ do
        record_event warning event_work_creation_failed (error_text e)
        raise (errorf ("failed to create ManifestWork: " <> error_text e))
      | done _ ↦ do
        record_event normal event_work_created
            ("Created ManifestWork " <> (E.quote mw_name <> (" for Capp " <> E.quote c.name)))
        pure tt
    ]

module _ (C : Client) where
  -- `finalizeCapp`
  unfoldable pub finalize_capp : String → String → Action C.Cluster (Unit {0})
  unfolding error_text
  finalize_capp mw_name cluster = do
    got ← query (C.get_work (record { name = mw_name; namespace = cluster }))
    elim got [
      | failed e ↦ raise e
      | done work ↦ do
        deleted ← send (delete_work work) (C.delete_work work)
        elim deleted [
          | failed e ↦ raise (errorf ("unable to delete ManifestWork: " <> error_text e))
          | done _ ↦ pure tt
        ]
    ]

  -- `removeFinalizer`
  unfoldable pub remove_finalizer : Capp → Action C.Cluster (Unit {0})
  unfolding error_text
  remove_finalizer c = do
    let sent = finalizer_removed c
    updated ← send (update_capp sent) (C.update_capp sent)
    elim updated [
      | failed e ↦ raise (errorf ("failed to remove finalizer from Capp: " <> error_text e))
      | done _ ↦ pure tt
    ]

  -- `HandleCappDeletion`
  unfoldable pub handle_capp_deletion : Capp → Action C.Cluster (Unit {0})
  unfolding finalize_capp remove_finalizer is_not_found contains_finalizer
  handle_capp_deletion c =
      if contains_finalizer c
      then (do
        finalized ← attempt (finalize_capp (generate_mw_name c) c.status_site)
        elim finalized [
          | failed e ↦ if is_not_found e then remove_finalizer c else raise e
          | done _ ↦ pure tt
        ])
      else pure tt

  -- `EnsureFinalizer`. The object is a copy: the caller goes on with the Capp that it read.
  unfoldable pub ensure_finalizer : Capp → Action C.Cluster (Unit {0})
  unfolding contains_finalizer error_text
  ensure_finalizer c = if contains_finalizer c then pure tt else do
    let sent = finalizer_added c
    updated ← send (update_capp sent) (C.update_capp sent)
    elim updated [
      | failed e ↦ raise (errorf ("failed to add finalizer to Capp: " <> error_text e))
      | done _ ↦ pure tt
    ]
