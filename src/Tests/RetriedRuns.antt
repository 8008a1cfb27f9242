-- ===== src/Tests/RetriedRuns.antt =====
-- The runs for a Capp on a server that refuses writes at first.
use rcs_ocm_deployer.Common.{
  ℕ, zero, suc, ◌<◌, ◌≡◌, refl, true, false, none, some, List, [], ◌∷◌, arith,
}
use rcs_ocm_deployer.Api.Work.{Manifest, ManifestWork}
use rcs_ocm_deployer.Runtime.Outcome.{Reply, done, failed, status, conflict}
use rcs_ocm_deployer.Runtime.Client.{Client}
use rcs_ocm_deployer.Runtime.Quiet.{IsQuiet}
use rcs_ocm_deployer.Runtime.WorkStore.{IsWorkStore, accepted, key_of}
use rcs_ocm_deployer.Runtime.Retrying.{IsRetrying}
use rcs_ocm_deployer.Runtime.Requeue.{run_until_done}
use rcs_ocm_deployer.Sync.Adapters.{contains_finalizer}
use rcs_ocm_deployer.Sync.Directors.Assembly.{assembled}
use rcs_ocm_deployer.Sync.Controller.{reconcile}
use rcs_ocm_deployer.Sync.Controller.Converge.{Holds}
use rcs_ocm_deployer.Sync.Controller.Retried.{IsServed, run_until_done-Holds}
use rcs_ocm_deployer.Tests.Server.{Objects, server, server-IsWorkStore}
use rcs_ocm_deployer.Tests.Data.{externals, placed_web, request, objects}

record Busy : Type 0 where
  pub objects : Objects
  -- how many writes of ManifestWorks are still refused
  pub refusals : ℕ

abbrev on_objects : {A : Type 0} → (Objects → Reply A × Objects) → Busy → Reply A × Busy
on_objects q w = let (r, objects) = q w.objects in (r, record w { objects = objects })

-- a write that is refused while there are refusals left
abbrev refusing : (Objects → Reply (Unit {0}) × Objects) → Busy → Reply (Unit {0}) × Busy
refusing q w = elim w.refusals [
  | suc n ↦ (failed (status conflict "try later"), record w { refusals = n })
  | zero ↦ on_objects q w
]

abbrev busy : Client
busy = record {
  Cluster = Busy;
  get_config = λ k. on_objects (server.get_config k);
  get_capp = λ k. on_objects (server.get_capp k);
  get_placement = λ k. on_objects (server.get_placement k);
  get_work = λ k. on_objects (server.get_work k);
  get_config_map = λ k. on_objects (server.get_config_map k);
  get_secret = λ k. on_objects (server.get_secret k);
  list_decisions = λ o. on_objects (server.list_decisions o);
  list_role_bindings = λ ns. on_objects (server.list_role_bindings ns);
  list_managed_clusters = on_objects server.list_managed_clusters;
  update_capp = λ a. on_objects (server.update_capp a);
  update_capp_status = λ a. on_objects (server.update_capp_status a);
  create_work = λ mw. refusing (server.create_work mw);
  update_work = λ mw. refusing (server.update_work mw);
  delete_work = λ mw. on_objects (server.delete_work mw);
}

abbrev busy-IsQuiet : IsQuiet busy
busy-IsQuiet = record {
  config = λ k w. refl;
  capp = λ k w. refl;
  placement = λ k w. refl;
  work = λ k w. refl;
  config_map = λ k w. refl;
  secret = λ k w. refl;
  decisions = λ o w. refl;
  role_bindings = λ ns w. refl;
  managed_clusters = λ w. refl;
}

abbrev L : IsWorkStore server
L = server-IsWorkStore

-- how a write is kept when it is accepted
abbrev IsKept : (ManifestWork → Busy → Reply (Unit {0}) × Busy) → Busy → ManifestWork → Type 0
IsKept act w mw =
    accepted (act mw w).0 ≡ true
    → (kept : ManifestWork) × (L.stored (act mw w).1.objects (key_of mw) ≡ some kept)
      × (kept.manifests ≡ mw.manifests)

created_IsKept :
    (n : ℕ) (o : Objects) (mw : ManifestWork)
    → IsKept busy.create_work (record { objects = o; refusals = n }) mw
created_IsKept zero o mw h = L.create_stored o mw h
created_IsKept (suc n) o mw h = absurd (ground arith)

updated_IsKept :
    (n : ℕ) (o : Objects) (mw : ManifestWork)
    → IsKept busy.update_work (record { objects = o; refusals = n }) mw
updated_IsKept zero o mw h = L.update_stored o mw h
updated_IsKept (suc n) o mw h = absurd (ground arith)

busy-IsWorkStore : IsWorkStore busy
busy-IsWorkStore = record {
  stored = λ w k. L.stored w.objects k;
  stored_key = λ w k mw e. L.stored_key w.objects k mw e;
  get_stored = λ w k mw e. L.get_stored w.objects k mw e;
  get_found = λ w k mw e. L.get_found w.objects k mw e;
  get_missing = λ w k e. L.get_missing w.objects k e;
  create_stored = λ w mw. created_IsKept w.refusals w.objects mw;
  update_stored = λ w mw. updated_IsKept w.refusals w.objects mw;
  delete_stored = λ w mw free h. L.delete_stored w.objects mw free h;
}

-- the Capp is served, and two writes will be refused
abbrev start : Busy
start = record { objects = record objects { capps = placed_web ∷ [] }; refusals = 2 }

made : (ms : List Manifest) × (assembled busy busy-IsQuiet placed_web externals start ≡ done ms)
made = (_, refl)

abbrev Served : Busy → Type 0
Served = IsServed externals busy busy-IsQuiet busy-IsWorkStore request placed_web made.0

created_refused :
    (n : ℕ) (o : Objects) (mw : ManifestWork)
    → let w : Busy = record { objects = o; refusals = n } in
      let (r, v) = busy.create_work mw w in
      Served w → L.stored o (key_of mw) ≡ none → accepted r ≡ false → Served v × (v.refusals < n)
created_refused zero o mw served gone h = absurd (ground arith)
created_refused (suc n) o mw served gone h = (served, omega arith)

updated_refused :
    (n : ℕ) (o : Objects) (mw old : ManifestWork)
    → let w : Busy = record { objects = o; refusals = n } in
      let (r, v) = busy.update_work mw w in
      Served w
      → L.stored o (key_of mw) ≡ some old
      → accepted r ≡ false
      → Served v × (v.refusals < n)
updated_refused zero o mw old served found h = absurd (ground arith)
updated_refused (suc n) o mw old served found h = (served, omega arith)

retrying : IsRetrying busy busy-IsWorkStore Served
unfolding busy-IsWorkStore
retrying = record {
  patience = λ w. w.refusals;
  create_refused = λ w mw. created_refused w.refusals w.objects mw;
  update_refused = λ w mw old. updated_refused w.refusals w.objects mw old;
}

has_finalizer : contains_finalizer placed_web ≡ true
unfolding contains_finalizer
has_finalizer = refl

run_until_done-Holds_example :
    (v : Busy) × (run_until_done (reconcile externals busy request) 3 start ≡ some v)
    × Holds externals busy busy-IsQuiet busy-IsWorkStore placed_web v made.0
unfolding retrying
run_until_done-Holds_example =
    run_until_done-Holds externals busy busy-IsQuiet busy-IsWorkStore request placed_web made.0
      retrying refl has_finalizer 3 start (refl, made.1) (omega arith)
