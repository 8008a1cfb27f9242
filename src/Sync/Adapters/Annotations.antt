-- ===== src/Sync/Adapters/Annotations.antt =====
-- The annotations of a new ManifestWork.
use rcs_ocm_deployer.Common.{String, ◌≡◌, refl, none, some, List, [], ◌∷◌, ◌++◌, arith}
use rcs_ocm_deployer.Common.Dict.{lookup_nil, lookup}
use rcs_ocm_deployer.Api.Workload.{Capp}
use rcs_ocm_deployer.Api.Work.{Manifest, ManifestWork}
use rcs_ocm_deployer.Runtime.Client.{Client, Externals}
use rcs_ocm_deployer.Runtime.Action.{Run, create_work}
use rcs_ocm_deployer.Sync.Adapters.{
  generate_mw_name, generate_manifest_work_generic, zero_option, capp_name_key, capp_namespace_key,
  set_manifest_work_capp_annotations, create_manifest_work,
}

-- `SetManifestWorkCappAnnotations` puts the name and the namespace of the Capp on the object that
-- it is given.
pub annotations-set :
    (mw : ManifestWork) (c : Capp)
    → let annotations = (set_manifest_work_capp_annotations mw c).metadata.annotations in
      (lookup_nil capp_name_key annotations ≡ some c.name)
      × (lookup_nil capp_namespace_key annotations ≡ some c.namespace)
unfolding set_manifest_work_capp_annotations lookup
annotations-set mw c = (refl, refl)

-- One ManifestWork is sent, with the name of the Capp, in the namespace of the cluster and with
-- the manifests, whether or not the server accepts it. It has no annotations, though
-- `SetManifestWorkCappAnnotations` would put the name of the Capp on it.
pub create_manifest_work-annotations :
    (E : Externals) (C : Client) (c : Capp) (cluster : String) (manifests : List Manifest)
    (s : Run C.Cluster)
    → (mw : ManifestWork) × ((create_manifest_work E C c cluster manifests s).1.writes
        ≡ s.writes ++ create_work mw ∷ [])
      × (mw.metadata.name ≡ generate_mw_name c)
      × (mw.metadata.namespace ≡ cluster)
      × (mw.manifests ≡ manifests)
      × (mw.metadata.annotations ≡ none)
      × (lookup_nil capp_name_key (set_manifest_work_capp_annotations mw c).metadata.annotations
          ≡ some c.name)
unfolding create_manifest_work
create_manifest_work-annotations E C c cluster manifests s =
    let mw =
      generate_manifest_work_generic (generate_mw_name c) cluster manifests (zero_option ∷ []) in
    (mw, ground arith, refl, refl, refl, refl, (annotations-set mw c).0)
