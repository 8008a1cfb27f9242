-- ===== src/Sync/Controller/Confined.antt =====
-- What a run of the sync controller for one Capp leaves true.
use rcs_ocm_deployer.Common.{
  ℕ, String, ◌≡◌, refl, ◌∙◌, Bool-cases, inl, inr, Option, none, some, List, [], ◌∷◌, arith,
}
use rcs_ocm_deployer.Api.Meta.{NamespacedName}
use rcs_ocm_deployer.Api.Workload.{Capp}
use rcs_ocm_deployer.Api.Work.{Manifest, ManifestWork}
use rcs_ocm_deployer.Runtime.Outcome.{Outcome, ok, err, panic, is_not_found, Reply, done, failed}
use rcs_ocm_deployer.Runtime.Client.{Client, Externals}
use rcs_ocm_deployer.Runtime.Closed.{capp_key_of, IsClosed}
use rcs_ocm_deployer.Runtime.Action.{Run, Action, fresh, continue, caught}
use rcs_ocm_deployer.Runtime.Reconcile.{ReconcileResult}
use rcs_ocm_deployer.Sync.Adapters.{
  zero_option, generate_manifest_work_generic, finalizer_added, finalizer_removed, ensure_finalizer,
  create_manifest_work, generate_mw_name, finalize_capp, remove_finalizer, handle_capp_deletion,
}
use rcs_ocm_deployer.Sync.Directors.{assemble_manifests}
use rcs_ocm_deployer.Sync.Directors.Reads.{assemble_manifests-keeps}
use rcs_ocm_deployer.Sync.Controller.{
  with_manifests, managed_cluster_name, apply_manifests, sync_assembled, sync_manifest_work,
  reconcile_by, reconcile_capp, reconcile,
}

added_key : (c : Capp) → capp_key_of (finalizer_added c) ≡ capp_key_of c
unfolding finalizer_added
added_key c = refl

removed_key : (c : Capp) → capp_key_of (finalizer_removed c) ≡ capp_key_of c
unfolding finalizer_removed
removed_key c = refl

module _ (E : Externals) (C : Client) (key : NamespacedName) (Q : C.Cluster → Type 0)
    (K : IsClosed C generate_mw_name key Q) where
  assemble_manifests-stays :
      (c : Capp) (s : Run C.Cluster) → Q s.cluster → Q (assemble_manifests E C c s).1.cluster
  assemble_manifests-stays c s q =
      assemble_manifests-keeps C (λ n t. Q t.cluster)
        (record {
          config_map = λ k t. K.get_config_map k t.cluster;
          secret = λ k t. K.get_secret k t.cluster;
          role_bindings = λ ns t. K.list_role_bindings ns t.cluster;
          events = λ es t q. q;
          more = λ t q le. q;
        })
        E c {n = 0} s q

  create_manifest_work-stays :
      (c : Capp) (cluster : String) (manifests : List Manifest) (s : Run C.Cluster)
      → capp_key_of c ≡ key
      → Q s.cluster
      → Q (create_manifest_work E C c cluster manifests s).1.cluster
  unfolding create_manifest_work
  create_manifest_work-stays c cluster manifests s same q =
      let mw =
        generate_manifest_work_generic (generate_mw_name c) cluster manifests (zero_option ∷ []) in
      let q' = K.create_work c mw s.cluster same refl q in ground (arith, q')

  apply_manifests-stays :
      (c : Capp) (manifests : List Manifest) (s : Run C.Cluster)
      → capp_key_of c ≡ key
      → Q s.cluster
      → Q (apply_manifests E C c manifests s).1.cluster
  unfolding apply_manifests
  apply_manifests-stays c manifests s same q =
      let k : NamespacedName = record {
        name = generate_mw_name c;
        namespace = managed_cluster_name c;
      } in
      let w = (C.get_work k s.cluster).1 in
      let q' = K.get_work k s.cluster q in
      let made =
        create_manifest_work-stays c (managed_cluster_name c) manifests (record s { cluster = w })
          same q' in
      let updated : (mw : ManifestWork) → Q (C.update_work (with_manifests mw manifests) w).1 =
        λ mw. K.update_work (with_manifests mw manifests) w q' in
      grind (arith, q', made, updated)

  handle_capp_deletion-stays :
      (c : Capp) (s : Run C.Cluster)
      → capp_key_of c ≡ key
      → Q s.cluster
      → Q (handle_capp_deletion C c s).1.cluster
  unfolding handle_capp_deletion finalize_capp remove_finalizer
  handle_capp_deletion-stays c s same q =
      let freed : (w : C.Cluster) → Q w → Q (C.update_capp (finalizer_removed c) w).1 =
        λ w. K.update_capp (finalizer_removed c) w (removed_key c ∙ same) in
      grind (arith, K.get_work, K.delete_work, freed)

  ensure_finalizer-stays :
      (c : Capp) (s : Run C.Cluster)
      → capp_key_of c ≡ key
      → Q s.cluster
      → Q (ensure_finalizer C c s).1.cluster
  unfolding ensure_finalizer
  ensure_finalizer-stays c s same q =
      let q' = K.update_capp (finalizer_added c) s.cluster (added_key c ∙ same) q in
      ground (arith, q')

  assembled_stays :
      (c : Capp) (r : Outcome (List Manifest) × Run C.Cluster)
      → capp_key_of c ≡ key
      → Q r.1.cluster
      → Q (continue (caught r) (sync_assembled E C c)).1.cluster
  unfolding sync_assembled
  assembled_stays c (ok manifests, s) same q = apply_manifests-stays c manifests s same q
  assembled_stays c (err e, s) same q = q
  assembled_stays c (panic, s) same q = q

  sync_manifest_work-stays :
      (c : Capp) (s : Run C.Cluster)
      → capp_key_of c ≡ key
      → Q s.cluster
      → Q (sync_manifest_work E C c s).1.cluster
  unfolding sync_manifest_work
  sync_manifest_work-stays c s same q =
      assembled_stays c (assemble_manifests E C c s) same (assemble_manifests-stays c s q)

  -- the rest of a run behind a call
  then_stays :
      {A : Type 0} (r : Outcome A × Run C.Cluster) (f : A → Action C.Cluster ReconcileResult)
      → Q r.1.cluster
      → ((a : A) (s : Run C.Cluster) → Q s.cluster → Q (f a s).1.cluster)
      → Q (continue r f).1.cluster
  then_stays (ok a, s) f q h = h a s q
  then_stays (err e, s) f q h = q
  then_stays (panic, s) f q h = q

  reconcile_by-stays :
      (o : Option ℕ) (c : Capp) (s : Run C.Cluster)
      → capp_key_of c ≡ key
      → Q s.cluster
      → Q (reconcile_by E C o c s).1.cluster
  unfolding reconcile_by
  reconcile_by-stays none c s same q =
      then_stays (ensure_finalizer C c s) (λ u. sync_manifest_work E C c)
        (ensure_finalizer-stays c s same q) (λ u t. sync_manifest_work-stays c t same)
  reconcile_by-stays (some t) c s same q =
      then_stays (handle_capp_deletion C c s) _ (handle_capp_deletion-stays c s same q) (λ u t q. q)

  by_read :
      (w : C.Cluster) (r : Reply Capp)
      → (C.get_capp key w).0 ≡ r
      → Q w
      → Q (reconcile E C key (fresh w)).1.cluster
  unfolding reconcile reconcile_capp
  by_read w (failed e) h q =
      let read = K.get_capp key w q in
      elim (Bool-cases (is_not_found e)) [ inl n ↦ rw (h, n) read | inr n ↦ rw (h, n) read ]
  by_read w (done c) h q =
      rw h (reconcile_by-stays c.deletion_timestamp c _ (K.read_key w c h) (K.get_capp key w q))

  -- A run leaves true what the calls for its Capp leave true.
  pub reconcile-stays : (w : C.Cluster) → Q w → Q (reconcile E C key (fresh w)).1.cluster
  reconcile-stays w q = by_read w _ refl q
