-- ===== src/Tests/AwaitedRuns.antt =====
-- The runs for a Capp whose Placement is decided late.
use rcs_ocm_deployer.Common.{ℕ, zero, suc, ◌<◌, ◌≡◌, ◌⊎◌, inl, inr, refl, true, [], ◌∷◌, arith}
use rcs_ocm_deployer.Api.Work.{PlacementDecisionList, ListOptions}
use rcs_ocm_deployer.Runtime.CappStore.{IsCappStore}
use rcs_ocm_deployer.Runtime.Client.{Client}
use rcs_ocm_deployer.Runtime.Deciding.{IsDeciding}
use rcs_ocm_deployer.Runtime.Outcome.{Reply, done}
use rcs_ocm_deployer.Placement.Adapters.{get_decision_cluster_name}
use rcs_ocm_deployer.System.Deploy.Awaited.{serves, IsWaiting}
use rcs_ocm_deployer.Tests.Server.Versions.{Shelf, versioned}
use rcs_ocm_deployer.Tests.Server.Versions.Stores.{versioned-IsCappStore}
use rcs_ocm_deployer.Tests.Data.{externals, web, config, objects}

record Desk : Type 0 where
  pub shelf : Shelf
  -- how many lists of decisions are still empty
  pub delays : ℕ

abbrev on_desk : {A : Type 0} → (Shelf → Reply A × Shelf) → Desk → Reply A × Desk
on_desk q w = let (r, s) = q w.shelf in (r, record w { shelf = s })

abbrev undecided : PlacementDecisionList
undecided = record { items = [] }

abbrev decided : PlacementDecisionList
decided = record { items = record { decisions = "local-cluster" ∷ "cluster-1" ∷ [] } ∷ [] }

abbrev late : Client
late = record {
  Cluster = Desk;
  get_config = λ k. on_desk (versioned.get_config k);
  get_capp = λ k. on_desk (versioned.get_capp k);
  get_placement = λ k. on_desk (versioned.get_placement k);
  get_work = λ k. on_desk (versioned.get_work k);
  get_config_map = λ k. on_desk (versioned.get_config_map k);
  get_secret = λ k. on_desk (versioned.get_secret k);
  list_decisions = λ o w. elim w.delays [
    | suc n ↦ (done undecided, record w { delays = n })
    | zero ↦ (done decided, w)
  ];
  list_role_bindings = λ ns. on_desk (versioned.list_role_bindings ns);
  list_managed_clusters = on_desk versioned.list_managed_clusters;
  update_capp = λ a. on_desk (versioned.update_capp a);
  update_capp_status = λ a. on_desk (versioned.update_capp_status a);
  create_work = λ mw. on_desk (versioned.create_work mw);
  update_work = λ mw. on_desk (versioned.update_work mw);
  delete_work = λ mw. on_desk (versioned.delete_work mw);
}

abbrev late-IsCappStore : IsCappStore late
late-IsCappStore = record {
  stored = λ w. versioned-IsCappStore.stored w.shelf;
  get_found = λ w. versioned-IsCappStore.get_found w.shelf;
  update_current = λ w. versioned-IsCappStore.update_current w.shelf;
  status_current = λ w. versioned-IsCappStore.status_current w.shelf;
}

abbrev Waiting : Desk → Type 0
Waiting = IsWaiting externals late late-IsCappStore web config "default-placement"

decided-serves : serves decided ≡ true
unfolding get_decision_cluster_name
decided-serves = refl

listed :
    (o : ListOptions) (s : Shelf) (n : ℕ)
    → let w : Desk = record { shelf = s; delays = n } in
      let (r, v) = late.list_decisions o w in
      Waiting w
      → Waiting v
        × ((l : PlacementDecisionList) × (r ≡ done l) × ((serves l ≡ true) ⊎ (v.delays < n)))
listed o s zero waits = (waits, (decided, refl, inl decided-serves))
listed o s (suc n) waits = (waits, (undecided, refl, inr (omega arith)))

deciding : IsDeciding late Waiting serves
deciding = record {
  patience = λ w. w.delays;
  config = λ k w. refl;
  capp = λ k w. refl;
  placement = λ k w. refl;
  decisions = λ o w. listed o w.shelf w.delays;
}

-- two lists will be empty
abbrev start : Desk
start = record { shelf = record { capp = web; objects = objects }; delays = 2 }
