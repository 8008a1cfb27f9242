-- ===== src/System/Deploy/Awaited.antt =====
-- The runs of the placement controller, repeated until its Placement is decided.
use rcs_ocm_deployer.Common.{String, ◌≡◌, ◌⊎◌, Bool, not, some, ◌==◌, ℕ, ◌<◌}
use rcs_ocm_deployer.Api.Workload.{Capp, RcsConfig}
use rcs_ocm_deployer.Api.Work.{PlacementDecisionList, ListOptions}
use rcs_ocm_deployer.Runtime.Outcome.{Outcome, ok, err, no_managed_cluster, done}
use rcs_ocm_deployer.Runtime.Client.{Client, Externals}
use rcs_ocm_deployer.Runtime.Deciding.{IsDeciding}
use rcs_ocm_deployer.Runtime.CappStore.{IsCappStore, capp_key}
use rcs_ocm_deployer.Runtime.Action.{Run}
use rcs_ocm_deployer.Runtime.Reconcile.{ReconcileResult}
use rcs_ocm_deployer.Runtime.Requeue.{IsTurn}
use rcs_ocm_deployer.Placement.Adapters.{get_decision_cluster_name}
use rcs_ocm_deployer.Placement.Controller.{
  rcs_config_name, rcs_config_namespace, placements_namespace_of, reconcile,
}
use rcs_ocm_deployer.System.Deploy.Placed.{IsPlaced}

-- a list of decisions that gives a cluster
abbrev pub serves : PlacementDecisionList → Bool
serves l = not (get_decision_cluster_name l.items == "")

module _ (E : Externals) (C : Client) (K : IsCappStore C) (c : Capp) (config : RcsConfig)
    (ref : String) where
  -- The RCSConfig and the Placement to use can be read, and the Capp is stored as it is.
  abbrev pub IsWaiting : C.Cluster → Type 0
  IsWaiting w =
      ((C.get_config (record { name = rcs_config_name; namespace = rcs_config_namespace }) w).0
        ≡ done config)
      × (K.stored w (capp_key c) ≡ some c)
      × ((C.get_placement (record { name = ref; namespace = placements_namespace_of config }) w).0
          ≡ done tt)

  module _ (D : IsDeciding C IsWaiting serves) where
    -- a cluster, or the error that asks for another run, and the Capp waits on
    abbrev IsPick : ℕ → Outcome String × Run C.Cluster → Type 0
    IsPick n r =
        IsWaiting r.1.cluster
        × (((x : String) × (r.0 ≡ ok x))
            ⊎ ((r.0 ≡ err no_managed_cluster) × (D.patience r.1.cluster < n)))

    -- the list that is asked for, and the cluster behind the call
    abbrev options : ListOptions
    options = record {
      label_key = E.placement_label;
      label_value = ref;
      namespace = placements_namespace_of config;
    }

    -- The Capp is stored with a cluster.
    abbrev pub IsPlacedSomewhere : C.Cluster → Type 0
    IsPlacedSomewhere v = (x : String) × IsPlaced E C K c x v

    abbrev IsRun : ℕ → Outcome ReconcileResult × Run C.Cluster → Type 0
    IsRun n r = IsTurn (reconcile E C (capp_key c)) IsWaiting IsPlacedSomewhere D.patience n r
