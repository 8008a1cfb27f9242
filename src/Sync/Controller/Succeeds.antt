-- ===== src/Sync/Controller/Succeeds.antt =====
-- `SyncManifestWork`: when a run succeeds.
use rcs_ocm_deployer.Common.{◌≡◌, refl, true, Option, none, some, List, [], ◌∷◌, arith}
use rcs_ocm_deployer.Api.Workload.{Capp}
use rcs_ocm_deployer.Api.Work.{Manifest, ManifestWork}
use rcs_ocm_deployer.Runtime.Outcome.{Outcome, ok, err, panic, done}
use rcs_ocm_deployer.Runtime.Client.{Client, Externals}
use rcs_ocm_deployer.Runtime.Quiet.{IsQuiet}
use rcs_ocm_deployer.Runtime.WorkStore.{IsWorkStore, accepted}
use rcs_ocm_deployer.Runtime.Action.{Run, caught, continue}
use rcs_ocm_deployer.Runtime.Reconcile.{no_result}
use rcs_ocm_deployer.Sync.Adapters.{generate_mw_name, generate_manifest_work_generic, zero_option}
use rcs_ocm_deployer.Sync.Directors.{assemble_manifests}
use rcs_ocm_deployer.Sync.Directors.Assembly.{assembled, assemble_manifests-eq-assembled}
use rcs_ocm_deployer.Sync.Controller.{
  managed_cluster_name, with_manifests, apply_manifests, sync_assembled, sync_manifest_work,
}
use rcs_ocm_deployer.Sync.Controller.Converge.{work_key}

module _ (E : Externals) (C : Client) (Q : IsQuiet C) (L : IsWorkStore C) (c : Capp)
    (manifests : List Manifest) where
  -- the ManifestWork that is created where there is none
  abbrev pub new_work : ManifestWork
  new_work =
      generate_manifest_work_generic (generate_mw_name c) (managed_cluster_name c) manifests
        (zero_option ∷ [])

  -- the server accepts the write that the run sends
  abbrev pub Accepts : C.Cluster → Option ManifestWork → Type 0
  Accepts w none = accepted (C.create_work new_work w).0 ≡ true
  Accepts w (some mw) = accepted (C.update_work (with_manifests mw manifests) w).0 ≡ true

  applied :
      (s : Run C.Cluster) (o : Option ManifestWork)
      → L.stored s.cluster (work_key c) ≡ o
      → Accepts s.cluster o
      → (apply_manifests E C c manifests s).0 ≡ ok no_result
  unfolding apply_manifests
  applied s none h a =
      ground (arith, Q.work (work_key c) s.cluster, L.get_missing s.cluster (work_key c))
  applied s (some mw) h a =
      ground (arith, Q.work (work_key c) s.cluster, L.get_found s.cluster (work_key c) mw)

  synced :
      (w : C.Cluster) (r : Outcome (List Manifest) × Run C.Cluster)
      → r.0 ≡ ok manifests
      → r.1.cluster ≡ w
      → Accepts w (L.stored w (work_key c))
      → (continue (caught r) (sync_assembled E C c)).0 ≡ ok no_result
  unfolding sync_assembled
  synced w (ok ms, t) h e a =
      let eq : ms ≡ manifests = cc in
      rw eq (applied t (L.stored t.cluster (work_key c)) refl (rw e a))
  synced w (err x, t) h e a = absurd (ground arith)
  synced w (panic, t) h e a = absurd (ground arith)

  -- On a quiet cluster with a store of ManifestWorks: if the manifests of the Capp can be assembled
  -- and the server accepts the one write that is due, an update of the stored ManifestWork or the
  -- creation of a new one, then a sync returns success with nothing to repeat.
  pub sync_manifest_work-eq-ok :
      (s : Run C.Cluster)
      → assembled C Q c E s.cluster ≡ done manifests
      → Accepts s.cluster (L.stored s.cluster (work_key c))
      → (sync_manifest_work E C c s).0 ≡ ok no_result
  unfolding sync_manifest_work
  sync_manifest_work-eq-ok s h a =
      let (outcome, same, _) = assemble_manifests-eq-assembled C Q c E s in
      synced s.cluster (assemble_manifests E C c s) (rw outcome (rw h refl)) same a
