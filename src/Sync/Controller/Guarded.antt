-- ===== src/Sync/Controller/Guarded.antt =====
-- What a run of the sync controller writes for a Capp that is not being deleted, for every client.
use rcs_ocm_deployer.Common.{
  ℕ, ◌≡◌, refl, inl, inr, true, false, Option, none, some, List, [], ◌∷◌, ◌++◌, arith, Bool-cases,
}
use rcs_ocm_deployer.Api.Workload.{Capp}
use rcs_ocm_deployer.Api.Work.{Manifest, ManifestWork}
use rcs_ocm_deployer.Runtime.Outcome.{Outcome, ok, err, panic, Reply, done, failed}
use rcs_ocm_deployer.Runtime.Client.{Client, Externals}
use rcs_ocm_deployer.Runtime.WorkStore.{accepted}
use rcs_ocm_deployer.Runtime.Action.{
  Run, Write, fresh, caught, continue, update_capp, create_work, update_work,
}
use rcs_ocm_deployer.Sync.Adapters.{
  zero_option, generate_manifest_work_generic, create_manifest_work, generate_mw_name,
  contains_finalizer, finalizer_added, ensure_finalizer,
}
use rcs_ocm_deployer.Sync.Directors.{assemble_manifests}
use rcs_ocm_deployer.Sync.Directors.Reads.{writes-assemble_manifests}
use rcs_ocm_deployer.Sync.Controller.Converge.{work_key}
use rcs_ocm_deployer.Sync.Controller.{
  with_manifests, managed_cluster_name, apply_manifests, sync_assembled, sync_manifest_work,
  reconcile_by, reconcile_capp,
}

-- A new ManifestWork under the name of the Capp, in the namespace of its cluster; or the one that
-- was read under that key, with other manifests.
abbrev pub IsWork : Client → Capp → Write → Type 0
IsWork C c (create_work mw) =
    (mw.metadata.name ≡ generate_mw_name c) × (mw.metadata.namespace ≡ managed_cluster_name c)
IsWork C c (update_work mw) =
    (v : C.Cluster) × (old : ManifestWork) × ((C.get_work (work_key c) v).0 ≡ done old)
    × (mw ≡ with_manifests old mw.manifests)
IsWork C c _ = ⊥

module _ (E : Externals) (C : Client) (c : Capp) where
  -- A ManifestWork is written only for a Capp with the finalizer: it had it when it was read, or
  -- the server accepted the update that adds it.
  abbrev pub IsGuarded : C.Cluster → List Write → Type 0
  IsGuarded w [] = Unit
  IsGuarded w (update_capp a ∷ []) = (contains_finalizer c ≡ false) × (a ≡ finalizer_added c)
  IsGuarded w (update_capp a ∷ x ∷ []) =
      (contains_finalizer c ≡ false)
      × (a ≡ finalizer_added c)
      × (accepted (C.update_capp a w).0 ≡ true)
      × IsWork C c x
  IsGuarded w (x ∷ []) = (contains_finalizer c ≡ true) × IsWork C c x
  IsGuarded w _ = ⊥

  -- `P` holds of the writes, and of the writes with one of a ManifestWork behind them.
  module _ (P : List Write → Type 0) where
    abbrev Extends : Run C.Cluster → Type 0
    Extends s = P s.writes × ((x : Write) → IsWork C c x → P (s.writes ++ x ∷ []))

    apply_manifests-adds :
        (manifests : List Manifest) (s : Run C.Cluster)
        → Extends s
        → P (apply_manifests E C c manifests s).1.writes
    unfolding apply_manifests create_manifest_work
    apply_manifests-adds manifests s h =
        let new =
          generate_manifest_work_generic (generate_mw_name c) (managed_cluster_name c) manifests
            (zero_option ∷ []) in
        let created = h.1 (create_work new) (refl, refl) in
        let updated : (old : ManifestWork)
            → (C.get_work (work_key c) s.cluster).0 ≡ done old
            → P (s.writes ++ update_work (with_manifests old manifests) ∷ []) =
          λ old e. h.1 (update_work (with_manifests old manifests)) (s.cluster, old, e, refl) in
        grind (arith, created, updated)

    sync_assembled-adds :
        (r : Outcome (List Manifest) × Run C.Cluster)
        → Extends r.1
        → P (continue (caught r) (sync_assembled E C c)).1.writes
    unfolding sync_assembled
    sync_assembled-adds (ok manifests, s) h = apply_manifests-adds manifests s h
    sync_assembled-adds (err e, s) h = h.0
    sync_assembled-adds (panic, s) h = h.0

    sync_manifest_work-adds :
        (s : Run C.Cluster) → Extends s → P (sync_manifest_work E C c s).1.writes
    unfolding sync_manifest_work
    sync_manifest_work-adds s h =
        sync_assembled-adds (assemble_manifests E C c s) (rw writes-assemble_manifests h)

  work_after_finalizer :
      (w : C.Cluster)
      → contains_finalizer c ≡ false
      → accepted (C.update_capp (finalizer_added c) w).0 ≡ true
      → (x : Write) → IsWork C c x
      → IsGuarded w (update_capp (finalizer_added c) ∷ x ∷ [])
  work_after_finalizer w no_finalizer yes_update x h = (no_finalizer, refl, yes_update, h)

  work_alone :
      (w : C.Cluster)
      → contains_finalizer c ≡ true
      → (x : Write) → IsWork C c x
      → IsGuarded w (x ∷ [])
  work_alone w e (create_work mw) h = (e, h)
  work_alone w e (update_work mw) h = (e, h)
  work_alone w e x h = ground arith

  -- the rest of the run behind `EnsureFinalizer`
  sync_behind :
      (w : C.Cluster) (r : Outcome (Unit {0}) × Run C.Cluster)
      → IsGuarded w r.1.writes
      → ((x : Write) → r.0 ≡ ok tt → IsWork C c x → IsGuarded w (r.1.writes ++ x ∷ []))
      → IsGuarded w (continue r (λ _. sync_manifest_work E C c)).1.writes
  sync_behind w (ok u, s) h k = sync_manifest_work-adds (IsGuarded w) s (h, λ x. k x refl)
  sync_behind w (err e, s) h k = h
  sync_behind w (panic, s) h k = h

  ensured :
      (w : C.Cluster) (r : Reply Capp)
      → (C.update_capp (finalizer_added c) w).0 ≡ r
      → let o = ensure_finalizer C c (fresh w) in
        IsGuarded w o.1.writes
        × ((x : Write) → o.0 ≡ ok tt → IsWork C c x → IsGuarded w (o.1.writes ++ x ∷ []))
  unfolding ensure_finalizer
  ensured w r h = elim (Bool-cases (contains_finalizer c)) [
    | inl has ↦ rw has (tt, λ x _. work_alone w has x)
    | inr lacks ↦ lacking lacks r h
  ]
    where
      lacking :
          contains_finalizer c ≡ false
          → (r : Reply Capp) → (C.update_capp (finalizer_added c) w).0 ≡ r
          → let o = ensure_finalizer C c (fresh w) in
            IsGuarded w o.1.writes
            × ((x : Write) → o.0 ≡ ok tt → IsWork C c x → IsGuarded w (o.1.writes ++ x ∷ []))
      lacking lacks (failed e) h = rw (lacks, h) ((lacks, refl), λ x f. absurd (ground arith))
      lacking lacks (done a) h =
          rw (lacks, h) ((lacks, refl), λ x _. work_after_finalizer w lacks (rw h) x)

  reconcile_by-IsGuarded :
      (w : C.Cluster) (o : Option ℕ)
      → o ≡ none
      → IsGuarded w (reconcile_by E C o c (fresh w)).1.writes
  unfolding reconcile_by
  reconcile_by-IsGuarded w none e =
      let (h, k) = ensured w _ refl in sync_behind w (ensure_finalizer C c (fresh w)) h k
  reconcile_by-IsGuarded w (some t) e = absurd (ground arith)

  -- A run for a Capp that is not being deleted writes at most the finalizer and then one
  -- ManifestWork. A ManifestWork is written only if the Capp had the finalizer or the server
  -- accepted the update with it; a new one has the name of the Capp and lies in the namespace of
  -- the cluster that the annotation names, and an updated one is the one that was read there with
  -- other manifests.
  pub reconcile_capp-IsGuarded :
      (w : C.Cluster)
      → c.deletion_timestamp ≡ none
      → IsGuarded w (reconcile_capp E C c (fresh w)).1.writes
  unfolding reconcile_capp
  reconcile_capp-IsGuarded w live = reconcile_by-IsGuarded w c.deletion_timestamp live
