-- ===== src/System/Protected/Placing.antt =====
-- The end of a run of the placement controller: the status, then the annotation.
use rcs_ocm_deployer.Common.{String, ◌≡◌, refl, true}
use rcs_ocm_deployer.Api.Meta.{NamespacedName}
use rcs_ocm_deployer.Api.Workload.{Capp}
use rcs_ocm_deployer.Runtime.Outcome.{Reply, done, failed}
use rcs_ocm_deployer.Runtime.Client.{Client, Externals}
use rcs_ocm_deployer.Runtime.Action.{Run}
use rcs_ocm_deployer.Runtime.Shared.{IsShared, IsSameVersion}
use rcs_ocm_deployer.Sync.Adapters.{contains_finalizer}
use rcs_ocm_deployer.Placement.Adapters.{with_placement}
use rcs_ocm_deployer.Placement.Controller.{deploy_on}
use rcs_ocm_deployer.System.Protected.Updates.{
  IsProtected, IsStable, IsProtected-IsStable, update-IsProtected,
}

module _ (E : Externals) (C : Client) (key work : NamespacedName)
    (G : IsShared C key work contains_finalizer) where
  -- the Capp was seen, and the cluster is protected
  abbrev pub IsSafe : Capp → C.Cluster → Type 0
  IsSafe c w = IsProtected C key work G w × G.Seen c w

  pub IsSafe-IsStable : (c : Capp) → IsStable C key work G (IsSafe c)
  IsSafe-IsStable c w v m (p, seen) =
      (IsProtected-IsStable C key work G w v m p, G.moves_seen c m seen)

  same_version : (c : Capp) (cluster : String) → IsSameVersion c (with_placement c cluster)
  unfolding with_placement
  same_version c cluster = (refl, refl, refl)

  with_placement-keeps :
      (c : Capp) (cluster : String)
      → contains_finalizer c ≡ true
      → contains_finalizer (with_placement c cluster) ≡ true
  unfolding with_placement contains_finalizer
  with_placement-keeps c cluster h = h

  -- the status, and the cluster behind it
  abbrev placed : Capp → String → Capp
  placed c cluster = record c { status_site = cluster }

  abbrev after_status : Capp → String → C.Cluster → C.Cluster
  after_status c cluster w = (C.update_capp_status (placed c cluster) w).1

  answered :
      (c b : Capp) (cluster : String) (s : Run C.Cluster) (r : Reply Capp)
      → (C.update_capp_status (placed c cluster) s.cluster).0 ≡ done b
      → (C.update_capp (with_placement b cluster) (after_status c cluster s.cluster)).0 ≡ r
      → IsProtected C key work G
          (C.update_capp (with_placement b cluster) (after_status c cluster s.cluster)).1
      → IsProtected C key work G (deploy_on E C c cluster s).1.cluster
  unfolding deploy_on
  answered c b cluster s (failed e) h k p = rw (h, k) p
  answered c b cluster s (done a) h k p = rw (h, k) p

  deploy_by :
      (c : Capp) (cluster : String) (s : Run C.Cluster) (r : Reply Capp)
      → (C.update_capp_status (placed c cluster) s.cluster).0 ≡ r
      → IsSafe c s.cluster
      → IsProtected C key work G (deploy_on E C c cluster s).1.cluster
  unfolding deploy_on
  deploy_by c cluster s (failed e) h (p, seen) =
      rw h (IsProtected-IsStable C key work G _ _ (G.status_moves s.cluster (placed c cluster)) p)
  deploy_by c cluster s (done b) h (p, seen) =
      let w = s.cluster in
      let p' = IsProtected-IsStable C key work G _ _ (G.status_moves w (placed c cluster)) p in
      let seen' = G.status_seen w c (placed c cluster) b seen (refl, refl, refl) h in
      answered c b cluster s _ h refl (
        update-IsProtected C key work G (after_status c cluster w) b (with_placement b cluster)
          seen' (same_version b cluster) (with_placement-keeps b cluster) p')

  pub deploy_on-IsProtected :
      (c : Capp) (cluster : String) (s : Run C.Cluster)
      → IsSafe c s.cluster
      → IsProtected C key work G (deploy_on E C c cluster s).1.cluster
  deploy_on-IsProtected c cluster s h = deploy_by c cluster s _ refl h
