-- ===== src/System/Protected/Others.antt =====
-- The runs for other Capps, and the turns of the controllers for all Capps.
use rcs_ocm_deployer.Common.{◌≡◌, ◌≢◌, ◌∙◌, sym, ap}
use rcs_ocm_deployer.Api.Meta.{NamespacedName}
use rcs_ocm_deployer.Api.Workload.{Capp}
use rcs_ocm_deployer.Runtime.Client.{Client, Externals}
use rcs_ocm_deployer.Runtime.Action.{fresh}
use rcs_ocm_deployer.Runtime.Apart.{IsApart}
use rcs_ocm_deployer.Runtime.Closed.{capp_key_of, IsClosed}
use rcs_ocm_deployer.Runtime.Shared.{IsShared}
use rcs_ocm_deployer.Placement.Controller as Placement
use rcs_ocm_deployer.Placement.Controller.Confined as PlacementConfined
use rcs_ocm_deployer.Sync.Controller as Sync
use rcs_ocm_deployer.Sync.Controller.Confined as SyncConfined
use rcs_ocm_deployer.Sync.Adapters.{contains_finalizer, generate_mw_name}
use rcs_ocm_deployer.Sync.Adapters.Names.{generate_mw_name_inj}
use rcs_ocm_deployer.System.Protected.Updates.{IsProtected}
use rcs_ocm_deployer.System.Protected.Turns.{Turn, others, Turns, start, next, Turns-IsProtected}

-- Another Capp, whose ManifestWork has another name.
abbrev pub IsOther : NamespacedName → NamespacedName → NamespacedName → Type 0
IsOther key work k = (k ≢ key) × ((c : Capp) → capp_key_of c ≡ k → generate_mw_name c ≢ work.name)

-- A Capp of the same namespace with another name is another Capp.
pub generate_mw_name-IsOther :
    (c : Capp) (work k : NamespacedName)
    → generate_mw_name c ≡ work.name
    → k.namespace ≡ c.namespace
    → k.name ≢ c.name
    → IsOther (capp_key_of c) work k
generate_mw_name-IsOther c work k named same differ = (
  λ e. differ (ap (λ (n : NamespacedName). n.name) e),
  λ d of_k clash.
      let names =
        generate_mw_name_inj d c (ap (λ (n : NamespacedName). n.namespace) of_k ∙ same)
          (clash ∙ sym named) in
      differ (sym (ap (λ (n : NamespacedName). n.name) of_k) ∙ names),
)

module _ (E : Externals) (C : Client) (key work : NamespacedName)
    (G : IsShared C key work contains_finalizer) (A : IsApart C key work contains_finalizer G) where
  -- the calls for another Capp are moves
  other-IsClosed :
      (k : NamespacedName) (w : C.Cluster)
      → IsOther key work k
      → IsClosed C generate_mw_name k (G.Moves w)
  other-IsClosed k w (differ, unnamed) = record {
    get_config = λ j v m. A.moves_twice m (G.get_config j v);
    get_capp = λ j v m. A.moves_twice m (G.get_capp j v);
    get_placement = λ j v m. A.moves_twice m (G.get_placement j v);
    get_work = λ j v m. A.moves_twice m (G.get_work j v);
    get_config_map = λ j v m. A.moves_twice m (G.get_config_map j v);
    get_secret = λ j v m. A.moves_twice m (G.get_secret j v);
    list_decisions = λ o v m. A.moves_twice m (G.list_decisions o v);
    list_role_bindings = λ ns v m. A.moves_twice m (G.list_role_bindings ns v);
    read_key = λ v c h. A.read_key k v c h;
    answer_key = λ v a b same h. A.answer_key v a b h ∙ same;
    update_capp = λ a v same m. A.moves_twice m (A.update_other v a (λ e. differ (sym same ∙ e)));
    update_capp_status = λ a v same m. A.moves_twice m (G.status_moves v a);
    create_work = λ c mw v same named m.
        A.moves_twice m (A.create_other v mw (λ e. unnamed c same (sym named ∙ e)));
    update_work = λ mw v m. A.moves_twice m (G.update_work_moves v mw);
    delete_work = λ mw v m. A.moves_twice m (G.delete_work_moves v mw);
  }

  -- One turn: a run of a controller for any Capp, or moves of others than the controllers.
  pub data SharedTurn : C.Cluster → C.Cluster → Type 0 where
    of_one : {w v : C.Cluster} → Turn E C key work G w v → SharedTurn w v
    placement_of :
        (k : NamespacedName) (w : C.Cluster)
        → IsOther key work k
        → SharedTurn w (Placement.reconcile E C k (fresh w)).1.cluster
    sync_of :
        (k : NamespacedName) (w : C.Cluster)
        → IsOther key work k
        → SharedTurn w (Sync.reconcile E C k (fresh w)).1.cluster

  pub data SharedTurns : C.Cluster → C.Cluster → Type 0 where
    begun : {w : C.Cluster} → SharedTurns w w
    further : {w v u : C.Cluster} → SharedTurns w v → SharedTurn v u → SharedTurns w u

  -- a run for another Capp is a turn of others
  single : {w v : C.Cluster} → SharedTurn w v → Turn E C key work G w v
  single (of_one t) = t
  single (placement_of k w other) = others (
      PlacementConfined.reconcile-stays E C generate_mw_name k (G.Moves w)
        (other-IsClosed k w other) w (A.moves_none w))
  single (sync_of k w other) =
      others (
        SyncConfined.reconcile-stays E C k (G.Moves w) (other-IsClosed k w other) w
          (A.moves_none w))

  singles : {w v : C.Cluster} → SharedTurns w v → Turns E C key work G w v
  singles begun = start
  singles (further ts t) = next (singles ts) (single t)

  -- Both controllers take turns for all Capps, in whatever order and however the runs end, and others
  -- use the API server between them. Then a Capp has the finalizer as long as its ManifestWork is
  -- stored, if it was so at the start. It is asked that those others neither take the finalizer away
  -- nor create the ManifestWork, that no other Capp has a ManifestWork of the same name, and that in
  -- a run of the sync controller for the Capp with a deletion timestamp the site in its status is
  -- the namespace of the ManifestWork.
  pub SharedTurns-IsProtected :
      {w v : C.Cluster} → SharedTurns w v → IsProtected C key work G w → IsProtected C key work G v
  SharedTurns-IsProtected ts p = Turns-IsProtected E C key work G (singles ts) p
