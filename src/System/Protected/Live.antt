-- ===== src/System/Protected/Live.antt =====
-- A run of the sync controller for a Capp that is not being deleted: the finalizer before the
-- ManifestWork.
use rcs_ocm_deployer.Common.{
  String, ◌<>◌, [], ◌∷◌, ◌++◌, ◌≡◌, inl, inr, refl, true, false, Bool-cases, List, if◌then◌else◌,
}
use rcs_ocm_deployer.Api.Meta.{NamespacedName}
use rcs_ocm_deployer.Api.Workload.{Capp}
use rcs_ocm_deployer.Api.Work.{Manifest, ManifestWork}
use rcs_ocm_deployer.Runtime.Outcome.{
  errorf, error_text, Outcome, ok, err, panic, is_not_found, is_conflict, Reply, done, failed,
}
use rcs_ocm_deployer.Runtime.Client.{Client, Externals}
use rcs_ocm_deployer.Runtime.Action.{
  Run, Action, pure, raise, continue, caught, update_capp, update_work, ◌>>=◌, ◌>>◌,
}
use rcs_ocm_deployer.Runtime.Calls.{send}
use rcs_ocm_deployer.Runtime.Reconcile.{ReconcileResult, no_result}
use rcs_ocm_deployer.Runtime.Shared.{IsShared, IsSameVersion}
use rcs_ocm_deployer.Runtime.WorkStore.{accepted}
use rcs_ocm_deployer.Sync.Adapters.{
  zero_option, generate_manifest_work_generic, contains_finalizer, finalizer_added,
  ensure_finalizer, create_manifest_work, generate_mw_name,
}
use rcs_ocm_deployer.Sync.Adapters.Finalizers.{finalizer_added-removed}
use rcs_ocm_deployer.Sync.Directors.{assemble_manifests}
use rcs_ocm_deployer.Sync.Directors.Reads.{assemble_manifests-keeps}
use rcs_ocm_deployer.Sync.Controller.{
  requeue_time, with_manifests, managed_cluster_name, apply_manifests, sync_assembled,
  sync_manifest_work,
}
use rcs_ocm_deployer.System.Protected.Updates.{IsProtected, update-IsProtected, ends_behind}

module _ (E : Externals) (C : Client) (key work : NamespacedName)
    (G : IsShared C key work contains_finalizer) where
  abbrev pub IsFinalized : C.Cluster → Type 0
  IsFinalized w = G.finalized w ≡ true

  -- collecting the manifests only reads
  assemble_manifests-IsFinalized :
      (c : Capp) (s : Run C.Cluster)
      → IsFinalized s.cluster
      → IsFinalized (assemble_manifests E C c s).1.cluster
  assemble_manifests-IsFinalized c s p =
      assemble_manifests-keeps C (λ n t. IsFinalized t.cluster)
        (record {
          config_map = λ k t. G.moves_finalized (G.get_config_map k t.cluster);
          secret = λ k t. G.moves_finalized (G.get_secret k t.cluster);
          role_bindings = λ ns t. G.moves_finalized (G.list_role_bindings ns t.cluster);
          events = λ es t q. q;
          more = λ t q le. q;
        })
        E c {n = 0} s p

  created :
      (c : Capp) (cluster : String) (manifests : List Manifest) (s : Run C.Cluster)
      (r : Reply (Unit {0}))
      → (C.create_work
          (generate_manifest_work_generic (generate_mw_name c) cluster manifests (zero_option ∷ []))
          s.cluster).0
        ≡ r
      → IsFinalized s.cluster
      → IsFinalized (create_manifest_work E C c cluster manifests s).1.cluster
  unfolding create_manifest_work
  created c cluster manifests s (failed e) h p = rw h (G.create_finalized s.cluster _ p)
  created c cluster manifests s (done u) h p = rw h (G.create_finalized s.cluster _ p)

  work_updated :
      (sent : ManifestWork) (s : Run C.Cluster)
      → IsFinalized s.cluster
      → IsFinalized (C.update_work sent s.cluster).1
  work_updated sent s p = G.moves_finalized (G.update_work_moves s.cluster sent) p

  answered :
      (s : Run C.Cluster) (r : Reply (Unit {0}))
      → IsFinalized s.cluster
      → IsFinalized
          ((elim r as (λ r. Action C.Cluster ReconcileResult) [
            | failed e ↦
                if is_conflict e
                then pure (record { requeue_after = requeue_time })
                else raise (errorf ("failed to sync ManifestWork: " <> error_text e))
            | done _ ↦ pure no_result
          ])
            s).1.cluster
  answered s (done u) p = p
  answered s (failed e) p = elim (Bool-cases (is_conflict e)) [ inl k ↦ rw k p | inr k ↦ rw k p ]

  work_behind :
      (c : Capp) (manifests : List Manifest) (s : Run C.Cluster) (r : Reply ManifestWork)
      → IsFinalized s.cluster
      → IsFinalized
          ((elim r as (λ r. Action C.Cluster ReconcileResult) [
            | failed e ↦
                if is_not_found e
                then (do
                  create_manifest_work E C c (managed_cluster_name c) manifests
                  pure no_result)
                else raise e
            | done mw ↦ do
              let sent = with_manifests mw manifests
              updated ← send (update_work sent) (C.update_work sent)
              elim updated [
                | failed e ↦
                    if is_conflict e
                    then pure (record { requeue_after = requeue_time })
                    else raise (errorf ("failed to sync ManifestWork: " <> error_text e))
                | done _ ↦ pure no_result
              ]
          ])
            s).1.cluster
  work_behind c manifests s (failed e) p = elim (Bool-cases (is_not_found e)) [
    | inl k ↦ rw k (
        ends_behind C key work G IsFinalized
          (create_manifest_work E C c (managed_cluster_name c) manifests s) no_result
          (created c (managed_cluster_name c) manifests s _ refl p))
    | inr k ↦ rw k p
  ]
  work_behind c manifests s (done mw) p =
      let sent = with_manifests mw manifests in
      let (r, w) = C.update_work sent s.cluster in
      answered (record s { cluster = w; writes = s.writes ++ update_work sent ∷ [] }) r
        (work_updated sent s p)

  apply_manifests-IsFinalized :
      (c : Capp) (manifests : List Manifest) (s : Run C.Cluster)
      → IsFinalized s.cluster
      → IsFinalized (apply_manifests E C c manifests s).1.cluster
  unfolding apply_manifests
  apply_manifests-IsFinalized c manifests s p =
      let k : NamespacedName = record {
        name = generate_mw_name c;
        namespace = managed_cluster_name c;
      } in
      let (r, w) = C.get_work k s.cluster in
      work_behind c manifests (record s { cluster = w }) r
        (G.moves_finalized (G.get_work k s.cluster) p)

  assembled_behind :
      (c : Capp) (r : Outcome (List Manifest) × Run C.Cluster)
      → IsFinalized r.1.cluster
      → IsFinalized (continue (caught r) (sync_assembled E C c)).1.cluster
  unfolding sync_assembled
  assembled_behind c (ok manifests, s) p = apply_manifests-IsFinalized c manifests s p
  assembled_behind c (err e, s) p = p
  assembled_behind c (panic, s) p = p

  pub sync_manifest_work-IsFinalized :
      (c : Capp) (s : Run C.Cluster)
      → IsFinalized s.cluster
      → IsFinalized (sync_manifest_work E C c s).1.cluster
  unfolding sync_manifest_work
  sync_manifest_work-IsFinalized c s p =
      assembled_behind c (assemble_manifests E C c s) (assemble_manifests-IsFinalized c s p)

  added_behind :
      (c : Capp) (s : Run C.Cluster) (r : Reply Capp)
      → (C.update_capp (finalizer_added c) s.cluster).0 ≡ r
      → contains_finalizer c ≡ false
      → IsProtected C key work G (C.update_capp (finalizer_added c) s.cluster).1
      → (accepted r ≡ true → IsFinalized (C.update_capp (finalizer_added c) s.cluster).1)
      → (f : Unit {0} → Action C.Cluster ReconcileResult)
      → ((s : Run C.Cluster) → IsFinalized s.cluster → IsFinalized (f tt s).1.cluster)
      → IsProtected C key work G (continue (ensure_finalizer C c s) f).1.cluster
  unfolding ensure_finalizer
  added_behind c s (failed e) h lacks p q f k = rw (lacks, h) p
  added_behind c s (done a) h lacks p q f k =
      let ends =
        k
          (record s {
            cluster = (C.update_capp (finalizer_added c) s.cluster).1;
            writes = s.writes ++ update_capp (finalizer_added c) ∷ [];
          })
          (q refl) in
      rw (lacks, h) (λ x. ends)

  same_version : (c : Capp) → IsSameVersion c (finalizer_added c)
  unfolding finalizer_added
  same_version c = (refl, refl, refl)

  -- behind `EnsureFinalizer` the stored Capp has the finalizer, or the run ends there
  pub ensure_finalizer-IsProtected :
      (c : Capp) (s : Run C.Cluster)
      → IsProtected C key work G s.cluster
      → G.Seen c s.cluster
      → (contains_finalizer c ≡ true → IsFinalized s.cluster)
      → (f : Unit {0} → Action C.Cluster ReconcileResult)
      → ((s : Run C.Cluster) → IsFinalized s.cluster → IsFinalized (f tt s).1.cluster)
      → IsProtected C key work G (continue (ensure_finalizer C c s) f).1.cluster
  unfolding ensure_finalizer
  ensure_finalizer-IsProtected c s p seen stored f k = elim (Bool-cases (contains_finalizer c)) [
    | inl has_it ↦ let ends = k s (stored has_it) in rw has_it (λ x. ends)
    | inr no_it ↦
        let has_it = (finalizer_added-removed c no_it).0 in
        added_behind c s _ refl no_it
          (update-IsProtected C key work G s.cluster c (finalizer_added c) seen (same_version c)
            (λ x. has_it) p)
          (λ yes_update.
            G.update_finalizes s.cluster c (finalizer_added c) seen (same_version c) yes_update
              has_it)
          f k
  ]
