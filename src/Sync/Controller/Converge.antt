-- ===== src/Sync/Controller/Converge.antt =====
-- `SyncManifestWork`: what the store holds after a run.
use rcs_ocm_deployer.Common.{◌≡◌, refl, some, List, [], ◌∷◌, arith}
use rcs_ocm_deployer.Api.Meta.{NamespacedName}
use rcs_ocm_deployer.Api.Workload.{Capp}
use rcs_ocm_deployer.Api.Work.{Manifest, ManifestWork}
use rcs_ocm_deployer.Runtime.Outcome.{Outcome, ok, err, panic, Reply, done, failed}
use rcs_ocm_deployer.Runtime.Client.{Client, Externals}
use rcs_ocm_deployer.Runtime.Quiet.{IsQuiet}
use rcs_ocm_deployer.Runtime.WorkStore.{IsWorkStore}
use rcs_ocm_deployer.Runtime.Action.{Run, caught, continue}
use rcs_ocm_deployer.Runtime.Reconcile.{no_result}
use rcs_ocm_deployer.Sync.Adapters.{generate_mw_name, generate_manifest_work_generic, zero_option}
use rcs_ocm_deployer.Sync.Directors.{assemble_manifests}
use rcs_ocm_deployer.Sync.Directors.Assembly.{
  assembled, outcome_of, assemble_manifests-eq-assembled,
}
use rcs_ocm_deployer.Sync.Controller.{
  managed_cluster_name, with_manifests, apply_manifests, sync_assembled, sync_manifest_work,
}

abbrev pub work_key : Capp → NamespacedName
work_key c = record { name = generate_mw_name c; namespace = managed_cluster_name c }

module _ (E : Externals) (C : Client) (Q : IsQuiet C) (L : IsWorkStore C) (c : Capp) where
  abbrev pub Holds : C.Cluster → List Manifest → Type 0
  Holds w manifests =
      (mw : ManifestWork) × (L.stored w (work_key c) ≡ some mw) × (mw.manifests ≡ manifests)

  stored_by :
      (manifests : List Manifest) (s : Run C.Cluster) (r : Reply ManifestWork)
      → (C.get_work (work_key c) s.cluster).0 ≡ r
      → (apply_manifests E C c manifests s).0 ≡ ok no_result
      → Holds (apply_manifests E C c manifests s).1.cluster manifests
  unfolding apply_manifests generate_manifest_work_generic
  stored_by manifests s (done mw) h e = ground (
    arith,
    Q.work (work_key c) s.cluster,
    L.get_stored s.cluster (work_key c) mw,
    L.stored_key s.cluster (work_key c) mw,
    L.update_stored s.cluster (with_manifests mw manifests),
  )
  stored_by manifests s (failed x) h e =
      let mw =
        generate_manifest_work_generic (generate_mw_name c) (managed_cluster_name c) manifests
          (zero_option ∷ []) in
      ground (arith, Q.work (work_key c) s.cluster, L.create_stored s.cluster mw)

  sync_from :
      (a : Reply (List Manifest)) (r : Outcome (List Manifest) × Run C.Cluster)
      → r.0 ≡ outcome_of a
      → let o = continue (caught r) (sync_assembled E C c) in
        o.0 ≡ ok no_result
        → (manifests : List Manifest) × (a ≡ done manifests) × Holds o.1.cluster manifests
  unfolding sync_assembled
  sync_from (done ms) (ok manifests, t) h e =
      (manifests, ground arith, stored_by manifests t _ refl e)
  sync_from (failed x) (ok manifests, t) h e = absurd (ground arith)
  sync_from a (err x, t) h e = absurd (ground arith)
  sync_from a (panic, t) h e = absurd (ground arith)

  -- On a quiet cluster with a store of ManifestWorks: if a sync returns success with nothing to
  -- repeat, then the manifests of the Capp could be assembled, and the store holds them in the
  -- ManifestWork of the Capp, in the namespace of its cluster, whether it was there before or not.
  pub sync_manifest_work-Holds :
      (s : Run C.Cluster)
      → (sync_manifest_work E C c s).0 ≡ ok no_result
      → (manifests : List Manifest) × (assembled C Q c E s.cluster ≡ done manifests)
        × Holds (sync_manifest_work E C c s).1.cluster manifests
  unfolding sync_manifest_work
  sync_manifest_work-Holds s e =
      sync_from (assembled C Q c E s.cluster) (assemble_manifests E C c s)
        (assemble_manifests-eq-assembled C Q c E s).0 e
