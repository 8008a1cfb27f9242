-- ===== src/Runtime/Deciding.antt =====
-- An API server on which a Placement is decided in the end.
use rcs_ocm_deployer.Common.{ℕ, ◌<◌, ◌≡◌, ◌⊎◌, Bool, true}
use rcs_ocm_deployer.Api.Meta.{NamespacedName}
use rcs_ocm_deployer.Api.Work.{PlacementDecisionList, ListOptions}
use rcs_ocm_deployer.Runtime.Outcome.{done}
use rcs_ocm_deployer.Runtime.Client.{Client}

-- Reads of an RCSConfig, a Capp or a Placement leave the cluster as it is. The list of decisions can
-- be read and leaves `Rest` true; a list that does not serve uses up patience.
pub record IsDeciding (C : Client) (Rest : C.Cluster → Type 0)
    (serves : PlacementDecisionList → Bool) : Type 0 where
  -- how many more lists may not serve
  pub patience : C.Cluster → ℕ
  pub config : (k : NamespacedName) (w : C.Cluster) → (C.get_config k w).1 ≡ w
  pub capp : (k : NamespacedName) (w : C.Cluster) → (C.get_capp k w).1 ≡ w
  pub placement : (k : NamespacedName) (w : C.Cluster) → (C.get_placement k w).1 ≡ w
  pub decisions :
      (o : ListOptions) (w : C.Cluster)
      → Rest w
      → let (r, v) = C.list_decisions o w in
        Rest v
        × ((l : PlacementDecisionList) × (r ≡ done l)
            × ((serves l ≡ true) ⊎ (patience v < patience w)))
