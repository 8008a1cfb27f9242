-- ===== src/Runtime/Requeue.antt =====
-- The work queue of controller-runtime, for one request: a run is made again while it returns an
-- error or a time after which it asks to be made again.
use rcs_ocm_deployer.Common.{
  ℕ, zero, suc, ◌<◌, ◌≡◌, refl, ◌⊎◌, inl, inr, Bool, true, false, Option, none, some, arith,
  if◌then◌else◌,
}
use rcs_ocm_deployer.Runtime.Outcome.{Outcome, ok, err, panic}
use rcs_ocm_deployer.Runtime.Action.{Run, fresh}
use rcs_ocm_deployer.Runtime.Reconcile.{ReconcileResult}

abbrev is_positive : ℕ → Bool
is_positive zero = false
is_positive (suc n) = true

abbrev pub asks_again : Outcome ReconcileResult → Bool
asks_again (ok r) = is_positive r.requeue_after
asks_again (err e) = true
asks_again panic = true

module _ {W : Type 0} (reconcile : Run W → Outcome ReconcileResult × Run W) where
  -- At most `fuel` runs, one after the other: the cluster behind the first that does not ask to be
  -- made again.
  unfoldable pub run_until_done : ℕ → W → Option W
  run_until_done zero w = none
  run_until_done (suc fuel) w =
      let r = reconcile (fresh w) in
      let rest = run_until_done fuel r.1.cluster in
      if asks_again r.0 then rest else some r.1.cluster

  module _ (Before After : W → Type 0) (measure : W → ℕ) where
    -- The run is the last one and leaves `After`; or it asks again, leaves `Before`, and the measure
    -- is below `n`.
    abbrev pub IsTurn : ℕ → Outcome ReconcileResult × Run W → Type 0
    IsTurn n r =
        ((asks_again r.0 ≡ false) × After r.1.cluster)
        ⊎ ((asks_again r.0 ≡ true) × Before r.1.cluster × (measure r.1.cluster < n))

    -- If every run is the last one or lowers a measure, then more runs than the measure at the start
    -- are enough.
    pub run_until_done-ends :
        ((w : W) → Before w → IsTurn (measure w) (reconcile (fresh w)))
        → (fuel : ℕ) (w : W) → Before w
        → measure w < fuel
        → (v : W) × (run_until_done fuel w ≡ some v) × After v
    unfolding run_until_done
    run_until_done-ends turn zero w b lt = absurd (omega (arith, lt))
    run_until_done-ends turn (suc fuel) w b lt = elim (turn w b) [
      | inl (last, a) ↦ (_, rw last refl, a)
      | inr (again, b', less) ↦
          let (v, e, a) = run_until_done-ends turn fuel _ b' (omega (arith, lt, less)) in
          (v, rw again e, a)
    ]
