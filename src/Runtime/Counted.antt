-- ===== src/Runtime/Counted.antt =====
-- A client that counts the calls that are made of another one.
use rcs_ocm_deployer.Common.{ℕ, suc}
use rcs_ocm_deployer.Runtime.Outcome.{Outcome, Reply}
use rcs_ocm_deployer.Runtime.Client.{Client}
use rcs_ocm_deployer.Runtime.Action.{Run}

abbrev pub tick : {W A : Type 0} → (W → Reply A × W) → W × ℕ → Reply A × (W × ℕ)
tick call s = let (reply, w) = call s.0 in (reply, (w, suc s.1))

abbrev pub counted : Client → Client
counted C = record {
  Cluster = C.Cluster × ℕ;
  get_config = λ k. tick (C.get_config k);
  get_capp = λ k. tick (C.get_capp k);
  get_placement = λ k. tick (C.get_placement k);
  get_work = λ k. tick (C.get_work k);
  get_config_map = λ k. tick (C.get_config_map k);
  get_secret = λ k. tick (C.get_secret k);
  list_decisions = λ o. tick (C.list_decisions o);
  list_role_bindings = λ ns. tick (C.list_role_bindings ns);
  list_managed_clusters = tick C.list_managed_clusters;
  update_capp = λ c. tick (C.update_capp c);
  update_capp_status = λ c. tick (C.update_capp_status c);
  create_work = λ mw. tick (C.create_work mw);
  update_work = λ mw. tick (C.update_work mw);
  delete_work = λ mw. tick (C.delete_work mw);
}

-- the number of calls of a run
abbrev pub calls : {W A : Type 0} → Outcome A × Run (W × ℕ) → ℕ
calls o = o.1.cluster.1
