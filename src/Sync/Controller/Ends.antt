-- ===== src/Sync/Controller/Ends.antt =====
-- The runs of `Reconcile` for a Capp that is being deleted come to an end.
use rcs_ocm_deployer.Common.{ℕ, ◌+◌, ◌≤◌, ◌<◌, ◌≡◌, refl, ◌∙◌, inl, inr, Option, none, some, arith}
use rcs_ocm_deployer.Api.Meta.{NamespacedName}
use rcs_ocm_deployer.Api.Workload.{Capp}
use rcs_ocm_deployer.Runtime.Outcome.{Outcome, ok, err, panic, Reply, done, failed}
use rcs_ocm_deployer.Runtime.Client.{Client, Externals}
use rcs_ocm_deployer.Runtime.Action.{Run, fresh, pure, continue}
use rcs_ocm_deployer.Runtime.Patient.{IsRead, IsPatient}
use rcs_ocm_deployer.Runtime.Reconcile.{ReconcileResult}
use rcs_ocm_deployer.Runtime.Requeue.{run_until_done, IsTurn, run_until_done-ends}
use rcs_ocm_deployer.Sync.Adapters.{handle_capp_deletion}
use rcs_ocm_deployer.Sync.Controller.{requeue_time, reconcile_by, reconcile_capp, reconcile}
use rcs_ocm_deployer.Sync.Controller.Cleanup.{
  flag-le, IsDying, IsDeleting, IsClean, measure, IsLeft, Falls, call_failed,
  handle_capp_deletion-Falls,
}

module _ (E : Externals) (C : Client) (key work_key : NamespacedName)
    (P : IsPatient C key work_key) where
  abbrev IsRun : ℕ → Outcome ReconcileResult × Run C.Cluster → Type 0
  IsRun n r =
      IsTurn (reconcile E C key) (IsLeft C key work_key P) (IsClean C key work_key P)
        (measure C key work_key P) n r

  behind :
      (n : ℕ) (r : Outcome (Unit {0}) × Run C.Cluster)
      → Falls C key work_key P n r.1.cluster
      → IsRun n (continue r (λ _. pure (record { requeue_after = requeue_time })))
  behind n (ok u, s) (left, less) = inr (refl, left, less)
  behind n (err e, s) (left, less) = inr (refl, left, less)
  behind n (panic, s) (left, less) = inr (refl, left, less)

  by_timestamp :
      (n : ℕ) (c : Capp) (s : Run C.Cluster) (t : ℕ) (o : Option ℕ)
      → o ≡ some t
      → Falls C key work_key P n (handle_capp_deletion C c s).1.cluster
      → IsRun n (reconcile_by E C o c s)
  unfolding reconcile_by
  by_timestamp n c s t none e f = absurd (ground arith)
  by_timestamp n c s t (some x) e f = behind n _ f

  found_turn :
      (n : ℕ) (c : Capp) (s : Run C.Cluster)
      → IsLeft C key work_key P s.cluster
      → P.capp s.cluster ≡ some c
      → measure C key work_key P s.cluster ≤ n
      → IsRun n (reconcile_capp E C c s)
  unfolding reconcile_capp
  found_turn n c s (inl (d, stored, dying)) found le =
      let same : d ≡ c = cc in
      let dying' : IsDying C key work_key P c = rw same at dying in
      let ((t, deleting), has_it, only_it, of_key) = dying' in
      by_timestamp n c s t c.deletion_timestamp deleting
        (handle_capp_deletion-Falls C key work_key P n c s found dying' le)
  found_turn n c s (inr (none_left, gone)) found le = absurd (ground arith)

  nothing_left :
      (w : C.Cluster) → IsLeft C key work_key P w → P.capp w ≡ none → IsClean C key work_key P w
  nothing_left w (inl (c, stored, dying)) none_left = absurd (ground arith)
  nothing_left w (inr clean) none_left = clean

  read_turn :
      (w : C.Cluster) (r : Reply Capp)
      → (C.get_capp key w).0 ≡ r
      → IsLeft C key work_key P w
      → IsRun (measure C key work_key P w) (reconcile E C key (fresh w))
  unfolding reconcile
  read_turn w (failed e) h left =
      let v = (C.get_capp key w).1 in
      let (read, same, same') = P.get_capp w in
      let read' : IsRead (failed e) (P.capp w) (P.patience w) (P.patience v) = rw h at read in
      elim read' [
        | inl (missing, none_left, less) ↦
            let (gone, gone') = nothing_left w left none_left in
            rw (h, missing) (inl (refl, (same ∙ gone, same' ∙ gone')))
        | inr (other, less) ↦
            let (left', less') =
              call_failed C key work_key P (measure C key work_key P w) w v left same same' less
                (omega arith) in
            rw (h, other) (inr (refl, left', less'))
      ]
  read_turn w (done c) h left =
      let v = (C.get_capp key w).1 in
      let (read, same, same') = P.get_capp w in
      let (found, less) : IsRead (done c) (P.capp w) (P.patience w) (P.patience v) = rw h at read in
      rw h (
        found_turn (measure C key work_key P w) c (record (fresh w) { cluster = v })
          (rw (same, same') left) (same ∙ found) (rw (same, same') (omega (arith, less))))

  -- A Capp is being deleted and has the finalizer of the program and no other. The site in its
  -- status is the namespace of its ManifestWork, which may be stored or not, and nobody else
  -- creates or updates the two. The runs of `Reconcile` are repeated for as long as they return an
  -- error or ask for it, and only finitely many calls fail and deletions leave the ManifestWork to
  -- its agent. Then the runs come to an end, after at most three more than there are such calls,
  -- and neither the Capp nor the ManifestWork is left.
  pub run_until_done-reconcile :
      (fuel : ℕ) (w : C.Cluster)
      → IsDeleting C key work_key P w
      → P.patience w + 2 < fuel
      → (v : C.Cluster) × (run_until_done (reconcile E C key) fuel w ≡ some v)
        × IsClean C key work_key P v
  run_until_done-reconcile fuel w deleting lt =
      let one = flag-le (P.capp w) in
      let two = flag-le (P.work w) in
      run_until_done-ends (reconcile E C key) (IsLeft C key work_key P) (IsClean C key work_key P)
        (measure C key work_key P) (λ v left. read_turn v _ refl left) fuel w (inl deleting)
        (omega (arith, one, two, lt))
