-- ===== src/System/Protected/Turns.antt =====
-- Both controllers and everybody else who uses the API server take turns.
use rcs_ocm_deployer.Api.Meta.{NamespacedName}
use rcs_ocm_deployer.Runtime.Client.{Client, Externals}
use rcs_ocm_deployer.Runtime.Action.{fresh}
use rcs_ocm_deployer.Runtime.Shared.{IsShared}
use rcs_ocm_deployer.Placement.Controller as Placement
use rcs_ocm_deployer.Sync.Controller as Sync
use rcs_ocm_deployer.Sync.Adapters.{contains_finalizer}
use rcs_ocm_deployer.System.Protected.Updates.{IsProtected, IsProtected-IsStable}
use rcs_ocm_deployer.System.Protected.SyncRun
use rcs_ocm_deployer.System.Protected.SyncRun.{IsSited}
use rcs_ocm_deployer.System.Protected.PlacementRun

module _ (E : Externals) (C : Client) (key work : NamespacedName)
    (G : IsShared C key work contains_finalizer) where
  -- One turn: a run of a controller for the Capp, on whatever it answers, or moves of others, to
  -- which the runs for other Capps belong. A run may end with an error or a panic anywhere.
  pub data Turn : C.Cluster → C.Cluster → Type 0 where
    others : {w v : C.Cluster} → G.Moves w v → Turn w v
    placement : (w : C.Cluster) → Turn w (Placement.reconcile E C key (fresh w)).1.cluster
    sync :
        (w : C.Cluster)
        → IsSited E C key work G w
        → Turn w (Sync.reconcile E C key (fresh w)).1.cluster

  pub data Turns : C.Cluster → C.Cluster → Type 0 where
    start : {w : C.Cluster} → Turns w w
    next : {w v u : C.Cluster} → Turns w v → Turn v u → Turns w u

  Turn-IsProtected :
      {w v : C.Cluster} → Turn w v → IsProtected C key work G w → IsProtected C key work G v
  Turn-IsProtected {w} {v} (others m) p = IsProtected-IsStable C key work G w v m p
  Turn-IsProtected (placement w) p = PlacementRun.reconcile-IsProtected E C key work G w p
  Turn-IsProtected (sync w sited) p = SyncRun.reconcile-IsProtected E C key work G w sited p

  -- Whatever order both controllers and others take their turns in, and however the runs end, the
  -- Capp has the finalizer as long as its ManifestWork is stored, if it was so at the start and
  -- others neither take the finalizer away nor create the ManifestWork. Each run of the sync
  -- controller for a Capp with a deletion timestamp needs that the site in the status is the
  -- namespace of the ManifestWork.
  pub Turns-IsProtected :
      {w v : C.Cluster} → Turns w v → IsProtected C key work G w → IsProtected C key work G v
  Turns-IsProtected start p = p
  Turns-IsProtected (next ts t) p = Turn-IsProtected t (Turns-IsProtected ts p)
