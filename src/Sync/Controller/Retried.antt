-- ===== src/Sync/Controller/Retried.antt =====
-- The runs of `Reconcile` for a Capp with the finalizer, repeated while writes are refused.
use rcs_ocm_deployer.Common.{
  ℕ, ◌<◌, ◌≡◌, refl, ◌∙◌, ap, ◌<>◌, if◌then◌else◌, ◌⊎◌, inl, inr, true, Bool-cases, Option, none,
  some, List, arith,
}
use rcs_ocm_deployer.Api.Meta.{NamespacedName}
use rcs_ocm_deployer.Api.Workload.{Capp}
use rcs_ocm_deployer.Api.Work.{Manifest, ManifestWork}
use rcs_ocm_deployer.Runtime.Outcome.{
  Outcome, ok, err, panic, Reply, done, failed, is_not_found, is_conflict, errorf, error_text,
}
use rcs_ocm_deployer.Runtime.Client.{Client, Externals}
use rcs_ocm_deployer.Runtime.Quiet.{IsQuiet}
use rcs_ocm_deployer.Runtime.WorkStore.{IsWorkStore, key_of}
use rcs_ocm_deployer.Runtime.Retrying.{IsRetrying}
use rcs_ocm_deployer.Runtime.Requeue.{asks_again, run_until_done, IsTurn, run_until_done-ends}
use rcs_ocm_deployer.Runtime.Action.{
  Run, Action, fresh, pure, raise, caught, continue, update_work, ◌>>=◌,
}
use rcs_ocm_deployer.Runtime.Calls.{send}
use rcs_ocm_deployer.Runtime.Reconcile.{ReconcileResult, no_result}
use rcs_ocm_deployer.Sync.Adapters.{
  contains_finalizer, ensure_finalizer, generate_manifest_work_generic, create_manifest_work,
}
use rcs_ocm_deployer.Sync.Directors.{assemble_manifests}
use rcs_ocm_deployer.Sync.Directors.Assembly.{assembled, assemble_manifests-eq-assembled}
use rcs_ocm_deployer.Sync.Controller.{
  requeue_time, managed_cluster_name, with_manifests, apply_manifests, sync_assembled,
  sync_manifest_work, reconcile_by, reconcile_capp, reconcile,
}
use rcs_ocm_deployer.Sync.Controller.Converge.{work_key, Holds, sync_manifest_work-Holds}
use rcs_ocm_deployer.Sync.Controller.Succeeds.{new_work}

module _ (E : Externals) (C : Client) (Q : IsQuiet C) (L : IsWorkStore C) (key : NamespacedName)
    (c : Capp) (manifests : List Manifest) where
  -- The Capp is stored as it is, and its manifests can be assembled.
  abbrev pub IsServed : C.Cluster → Type 0
  IsServed w = ((C.get_capp key w).0 ≡ done c) × (assembled C Q c E w ≡ done manifests)

  module _ (R : IsRetrying C L IsServed) where
    -- The run succeeds, or it asks for another and one refusal less is left.
    abbrev Stops : ℕ → Outcome ReconcileResult × Run C.Cluster → Type 0
    Stops n r =
        (r.0 ≡ ok no_result)
        ⊎ ((asks_again r.0 ≡ true) × IsServed r.1.cluster × (R.patience r.1.cluster < n))

    create_decides :
        (s : Run C.Cluster) (r : Reply (Unit {0}))
        → (C.create_work (new_work E C Q L c manifests) s.cluster).0 ≡ r
        → L.stored s.cluster (work_key c) ≡ none
        → IsServed s.cluster
        → Stops (R.patience s.cluster) (
            continue
              (create_manifest_work E C c (managed_cluster_name c) manifests s)
              (λ u. pure no_result))
    unfolding create_manifest_work generate_manifest_work_generic
    create_decides s (done u) h gone served = rw h (inl refl)
    create_decides s (failed e) h gone served =
        let (served', less) =
          R.create_refused s.cluster (new_work E C Q L c manifests) served gone (rw h refl) in
        rw h (inr (refl, served', less))

    update_decides :
        (s : Run C.Cluster) (mw : ManifestWork) (r : Reply (Unit {0}))
        → (C.update_work (with_manifests mw manifests) s.cluster).0 ≡ r
        → L.stored s.cluster (key_of mw) ≡ some mw
        → IsServed s.cluster
        → Stops (R.patience s.cluster) (
            (do
              let sent = with_manifests mw manifests
              updated ← send (update_work sent) (C.update_work sent)
              elim updated as (λ r. Action C.Cluster ReconcileResult) [
                | failed e ↦
                    if is_conflict e
                    then pure (record { requeue_after = requeue_time })
                    else raise (errorf ("failed to sync ManifestWork: " <> error_text e))
                | done _ ↦ pure no_result
              ])
              s)
    update_decides s mw (done u) h found served = rw h (inl refl)
    update_decides s mw (failed e) h found served =
        let (served', less) =
          R.update_refused s.cluster (with_manifests mw manifests) mw served found (rw h refl) in
        elim (Bool-cases (is_conflict e)) [
          | inl k ↦ rw (h, k) (inr (refl, served', less))
          | inr k ↦ rw (h, k) (inr (refl, served', less))
        ]

    applied_decides :
        (s : Run C.Cluster) (r : Reply ManifestWork) (o : Option ManifestWork)
        → (C.get_work (work_key c) s.cluster).0 ≡ r
        → L.stored s.cluster (work_key c) ≡ o
        → IsServed s.cluster
        → Stops (R.patience s.cluster) (apply_manifests E C c manifests s)
    unfolding apply_manifests
    applied_decides s (failed e) none h at served =
        let missing : is_not_found e ≡ true = rw h at (L.get_missing s.cluster (work_key c) at) in
        rw (h, missing, Q.work (work_key c) s.cluster) (create_decides s _ refl at served)
    applied_decides s (failed e) (some mw) h at served =
        let found = L.get_found s.cluster (work_key c) mw at in absurd (ground arith)
    applied_decides s (done mw) o h at served =
        let found = L.get_stored s.cluster (work_key c) mw h in
        let same = L.stored_key s.cluster (work_key c) mw found in
        let found' : L.stored s.cluster (key_of mw) ≡ some mw = rw same found in
        rw (h, Q.work (work_key c) s.cluster) (update_decides s mw _ refl found' served)

    assembled_decides :
        (n : ℕ) (r : Outcome (List Manifest) × Run C.Cluster)
        → r.0 ≡ ok manifests
        → IsServed r.1.cluster
        → R.patience r.1.cluster ≡ n
        → Stops n (continue (caught r) (sync_assembled E C c))
    unfolding sync_assembled
    assembled_decides n (ok ms, t) h served e =
        let eq : ms ≡ manifests = cc in
        let stops = applied_decides t _ _ refl refl served in rw eq (rw e at stops)
    assembled_decides n (err x, t) h served e = absurd (ground arith)
    assembled_decides n (panic, t) h served e = absurd (ground arith)

    sync_decides :
        (s : Run C.Cluster)
        → IsServed s.cluster
        → Stops (R.patience s.cluster) (sync_manifest_work E C c s)
    unfolding sync_manifest_work
    sync_decides s served =
        let (outcome, same, more) = assemble_manifests-eq-assembled C Q c E s in
        assembled_decides (R.patience s.cluster) (assemble_manifests E C c s)
          (rw outcome (rw served.1 refl)) (rw same served) (ap R.patience same)

    -- a run for the Capp, which has the finalizer
    abbrev IsRun : ℕ → Outcome ReconcileResult × Run C.Cluster → Type 0
    IsRun n r =
        IsTurn (reconcile E C key) IsServed (λ w. Holds E C Q L c w manifests) R.patience n r

    sync_turn :
        (s : Run C.Cluster)
        → IsServed s.cluster
        → IsRun (R.patience s.cluster) (sync_manifest_work E C c s)
    sync_turn s served = elim (sync_decides s served) [
      | inl success ↦
          let (ms, same, (mw, stored, its)) = sync_manifest_work-Holds E C Q L c s success in
          let unique : ms ≡ manifests = cc in inl (rw success refl, (mw, stored, its ∙ unique))
      | inr again ↦ inr again
    ]

    by_timestamp :
        (o : Option ℕ) (s : Run C.Cluster)
        → o ≡ none
        → contains_finalizer c ≡ true
        → IsServed s.cluster
        → IsRun (R.patience s.cluster) (reconcile_by E C o c s)
    unfolding reconcile_by ensure_finalizer
    by_timestamp none s live has served = let turn = sync_turn s served in rw has turn
    by_timestamp (some t) s live has served = absurd (ground arith)

    reconcile_turn :
        c.deletion_timestamp ≡ none
        → contains_finalizer c ≡ true
        → (w : C.Cluster) → IsServed w
        → IsRun (R.patience w) (reconcile E C key (fresh w))
    unfolding reconcile reconcile_capp
    reconcile_turn live has w served =
        rw (served.0, Q.capp key w) (by_timestamp c.deletion_timestamp (fresh w) live has served)

    -- The cluster is quiet but for refused writes. A Capp that is not being deleted has the
    -- finalizer, its manifests can be assembled, and only finitely many writes of its ManifestWork
    -- are refused, as a conflict or otherwise. The runs of `Reconcile` are repeated for as long as
    -- they return an error or ask for it. Then they come to an end, after at most one more than
    -- there are refusals, and the ManifestWork of the Capp holds its manifests.
    pub run_until_done-Holds :
        c.deletion_timestamp ≡ none
        → contains_finalizer c ≡ true
        → (fuel : ℕ) (w : C.Cluster) → IsServed w
        → R.patience w < fuel
        → (v : C.Cluster) × (run_until_done (reconcile E C key) fuel w ≡ some v)
          × Holds E C Q L c v manifests
    run_until_done-Holds live has fuel w served lt =
        run_until_done-ends (reconcile E C key) IsServed (λ v. Holds E C Q L c v manifests)
          R.patience (reconcile_turn live has) fuel w served lt
