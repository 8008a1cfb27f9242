-- ===== src/Sync/Adapters/Finalizers.antt =====
-- The finalizer of the sync controller among the finalizers of a Capp.
use rcs_ocm_deployer.Common.{
  String, ◌≡◌, ◌≢◌, refl, true, false, List, [], ◌∷◌, ◌++◌, arith, eq_iff, contains,
}
use rcs_ocm_deployer.Api.Workload.{Capp}
use rcs_ocm_deployer.Sync.Adapters.{
  finalizer_cleanup_capp, contains_finalizer, without_finalizer, finalizer_removed, finalizer_added,
}

contains-without_finalizer :
    (fs : List String) (f : String)
    → f ≢ finalizer_cleanup_capp
    → contains (without_finalizer fs) f ≡ contains fs f
unfolding without_finalizer
contains-without_finalizer [] f ne = refl
contains-without_finalizer (x ∷ fs) f ne =
    ground (arith, eq_iff x finalizer_cleanup_capp, eq_iff x f, contains-without_finalizer fs f ne)

not-contains-without_finalizer :
    (fs : List String) → contains (without_finalizer fs) finalizer_cleanup_capp ≡ false
unfolding without_finalizer
not-contains-without_finalizer [] = refl
not-contains-without_finalizer (x ∷ fs) = ground (arith, not-contains-without_finalizer fs)

-- `removeFinalizer` takes the finalizer away, wherever it stands, and leaves the others.
pub finalizer_removed_lem :
    (c : Capp)
    → (contains_finalizer (finalizer_removed c) ≡ false)
      × ((f : String)
          → f ≢ finalizer_cleanup_capp
          → contains (finalizer_removed c).finalizers f ≡ contains c.finalizers f)
unfolding finalizer_removed contains_finalizer
finalizer_removed_lem c =
    (not-contains-without_finalizer c.finalizers, contains-without_finalizer c.finalizers)

without_finalizer-added :
    (fs : List String)
    → contains fs finalizer_cleanup_capp ≡ false
    → without_finalizer (fs ++ finalizer_cleanup_capp ∷ []) ≡ fs
unfolding without_finalizer
without_finalizer-added [] e = refl
without_finalizer-added (x ∷ fs) e = ground (arith, without_finalizer-added fs)

contains-added :
    (fs : List String) → contains (fs ++ finalizer_cleanup_capp ∷ []) finalizer_cleanup_capp ≡ true
contains-added [] = refl
contains-added (x ∷ fs) = ground (arith, contains-added fs)

-- What `EnsureFinalizer` sends has the finalizer, and taking it away again gives back the Capp.
pub finalizer_added-removed :
    (c : Capp)
    → contains_finalizer c ≡ false
    → (contains_finalizer (finalizer_added c) ≡ true) × (finalizer_removed (finalizer_added c) ≡ c)
unfolding finalizer_added finalizer_removed contains_finalizer
finalizer_added-removed c e =
    (contains-added c.finalizers, rw (without_finalizer-added c.finalizers e))
