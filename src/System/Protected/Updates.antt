-- ===== src/System/Protected/Updates.antt =====
-- What the moves of others and an update of the Capp do to the finalizer and the ManifestWork.
use rcs_ocm_deployer.Common.{◌≡◌, inl, inr, true, Bool-cases}
use rcs_ocm_deployer.Api.Meta.{NamespacedName}
use rcs_ocm_deployer.Api.Workload.{Capp}
use rcs_ocm_deployer.Runtime.Outcome.{Outcome, ok, err, panic}
use rcs_ocm_deployer.Runtime.Action.{Run, pure, continue}
use rcs_ocm_deployer.Runtime.Client.{Client}
use rcs_ocm_deployer.Runtime.Shared.{IsShared, IsSameVersion}
use rcs_ocm_deployer.Runtime.WorkStore.{accepted}
use rcs_ocm_deployer.Sync.Adapters.{contains_finalizer}

module _ (C : Client) (key work : NamespacedName) (G : IsShared C key work contains_finalizer) where
  -- Where the ManifestWork is stored, the Capp has the finalizer.
  abbrev pub IsProtected : C.Cluster → Type 0
  IsProtected w = G.present w ≡ true → G.finalized w ≡ true

  -- A predicate on the cluster that others leave true.
  abbrev pub IsStable : (C.Cluster → Type 0) → Type 0
  IsStable P = (w v : C.Cluster) → G.Moves w v → P w → P v

  pub IsProtected-IsStable : IsStable IsProtected
  IsProtected-IsStable w v m p q = G.moves_finalized m (p (G.moves_present m q))

  pub finalized-IsStable : IsStable (λ w. G.finalized w ≡ true)
  finalized-IsStable w v m p = G.moves_finalized m p

  -- An update that does not drop the finalizer of the object that was seen keeps it.
  finalized-update :
      (w : C.Cluster) (c a : Capp)
      → G.Seen c w
      → IsSameVersion c a
      → (contains_finalizer c ≡ true → contains_finalizer a ≡ true)
      → G.finalized w ≡ true
      → G.finalized (C.update_capp a w).1 ≡ true
  finalized-update w c a seen same keeps p = elim (Bool-cases (accepted (C.update_capp a w).0)) [
    | inl yes_update ↦
        G.update_finalizes w c a seen same yes_update
          (keeps (G.update_current w c a seen same yes_update p))
    | inr no_update ↦ G.moves_finalized (G.update_refused w a no_update) p
  ]

  pub update-IsProtected :
      (w : C.Cluster) (c a : Capp)
      → G.Seen c w
      → IsSameVersion c a
      → (contains_finalizer c ≡ true → contains_finalizer a ≡ true)
      → IsProtected w
      → IsProtected (C.update_capp a w).1
  update-IsProtected w c a seen same keeps p q =
      finalized-update w c a seen same keeps (p (G.update_present w a q))

  -- the end of a run that returns `b` if the call before it did
  pub ends_behind :
      {A B : Type 0} (P : C.Cluster → Type 0) (r : Outcome A × Run C.Cluster) (b : B)
      → P r.1.cluster
      → P (continue r (λ a. pure b)).1.cluster
  ends_behind P (ok a, s) b p = p
  ends_behind P (err e, s) b p = p
  ends_behind P (panic, s) b p = p
