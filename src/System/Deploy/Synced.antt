-- ===== src/System/Deploy/Synced.antt =====
-- What the run of the sync controller does for a Capp that is not being deleted.
use rcs_ocm_deployer.Common.{
  ℕ, ◌≡◌, inl, inr, ◌∙◌, refl, Bool-cases, Option, none, some, List, arith,
}
use rcs_ocm_deployer.Api.Workload.{Capp}
use rcs_ocm_deployer.Api.Work.{Manifest}
use rcs_ocm_deployer.Runtime.Outcome.{Outcome, ok, err, panic, done}
use rcs_ocm_deployer.Runtime.Client.{Client, Externals}
use rcs_ocm_deployer.Runtime.Quiet.{IsQuiet}
use rcs_ocm_deployer.Runtime.WorkStore.{IsWorkStore}
use rcs_ocm_deployer.Runtime.CappStore.{IsCappStore, capp_key}
use rcs_ocm_deployer.Runtime.Action.{Run, Action, fresh, continue}
use rcs_ocm_deployer.Runtime.Reconcile.{ReconcileResult, no_result}
use rcs_ocm_deployer.Sync.Adapters.{contains_finalizer, finalizer_added, ensure_finalizer}
use rcs_ocm_deployer.Sync.Directors.Assembly.{assembled}
use rcs_ocm_deployer.Sync.Controller.{sync_manifest_work, reconcile_by, reconcile_capp, reconcile}
use rcs_ocm_deployer.Sync.Controller.Converge.{work_key, Holds, sync_manifest_work-Holds}
use rcs_ocm_deployer.Sync.Controller.Succeeds.{Accepts, sync_manifest_work-eq-ok}

behind_ok :
    {W B : Type 0} (r : Outcome (Unit {0}) × Run W) (f : Unit {0} → Action W B)
    → r.0 ≡ ok tt
    → continue r f ≡ f tt r.1
behind_ok (ok u, s) f e = refl
behind_ok (err x, s) f e = absurd (ground arith)
behind_ok (panic, s) f e = absurd (ground arith)

module _ (E : Externals) (C : Client) (Q : IsQuiet C) (L : IsWorkStore C) (K : IsCappStore C)
    (c : Capp) (manifests : List Manifest) where
  -- behind `EnsureFinalizer`
  abbrev pub finalized : C.Cluster → Run C.Cluster
  finalized w = (ensure_finalizer C c (fresh w)).1

  -- The manifests of the Capp can be assembled, and the server accepts the write that is due.
  abbrev pub IsReady : C.Cluster → Type 0
  IsReady w =
      (assembled C Q c E w ≡ done manifests)
      × Accepts E C Q L c manifests w (L.stored w (work_key c))

  abbrev Succeeds : Outcome ReconcileResult × Run C.Cluster → Type 0
  Succeeds o = (o.0 ≡ ok no_result) × Holds E C Q L c o.1.cluster manifests

  same_key : capp_key (finalizer_added c) ≡ capp_key c
  unfolding finalizer_added
  same_key = refl

  ensure_finalizer-ok :
      (w : C.Cluster)
      → K.stored w (capp_key c) ≡ some c
      → (ensure_finalizer C c (fresh w)).0 ≡ ok tt
  unfolding ensure_finalizer finalizer_added
  ensure_finalizer-ok w h = elim (Bool-cases (contains_finalizer c)) [
    | inl e ↦ rw e refl
    | inr e ↦
        let (version, (answer, stored)) = K.update_current w (finalizer_added c) c h refl in
        rw (e, answer) refl
  ]

  sync_manifest_work-Succeeds :
      (s : Run C.Cluster) → IsReady s.cluster → Succeeds (sync_manifest_work E C c s)
  sync_manifest_work-Succeeds s (ready, accepts) =
      let yes_ok = sync_manifest_work-eq-ok E C Q L c manifests s ready accepts in
      let (ms, same, (mw, stored, its)) = sync_manifest_work-Holds E C Q L c s yes_ok in
      let unique : ms ≡ manifests = cc in (yes_ok, (mw, stored, its ∙ unique))

  reconcile_by-Succeeds :
      (w : C.Cluster) (o : Option ℕ)
      → o ≡ none
      → K.stored w (capp_key c) ≡ some c
      → IsReady (finalized w).cluster
      → Succeeds (reconcile_by E C o c (fresh w))
  unfolding reconcile_by
  reconcile_by-Succeeds w none e h ready =
      rw
        (behind_ok (ensure_finalizer C c (fresh w)) (λ u. sync_manifest_work E C c)
          (ensure_finalizer-ok w h))
        (sync_manifest_work-Succeeds (finalized w) ready)
  reconcile_by-Succeeds w (some t) e h ready = absurd (ground arith)

  reconcile_capp-Succeeds :
      (w : C.Cluster)
      → c.deletion_timestamp ≡ none
      → K.stored w (capp_key c) ≡ some c
      → IsReady (finalized w).cluster
      → Succeeds (reconcile_capp E C c (fresh w))
  unfolding reconcile_capp
  reconcile_capp-Succeeds w = reconcile_by-Succeeds w c.deletion_timestamp

  -- On a quiet cluster, the run returns success and the store holds the manifests.
  pub reconcile-Succeeds :
      (w : C.Cluster)
      → c.deletion_timestamp ≡ none
      → K.stored w (capp_key c) ≡ some c
      → IsReady (finalized w).cluster
      → Succeeds (reconcile E C (capp_key c) (fresh w))
  unfolding reconcile
  reconcile-Succeeds w live h ready =
      rw (K.get_found w (capp_key c) c h, Q.capp (capp_key c) w)
        (reconcile_capp-Succeeds w live h ready)
