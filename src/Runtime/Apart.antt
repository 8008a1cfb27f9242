-- ===== src/Runtime/Apart.antt =====
-- What the API server promises of writes to other objects than the Capp and the ManifestWork that
-- Runtime/Shared is about.
use rcs_ocm_deployer.Common.{◌≡◌, ◌≢◌, Bool}
use rcs_ocm_deployer.Api.Meta.{NamespacedName}
use rcs_ocm_deployer.Api.Workload.{Capp}
use rcs_ocm_deployer.Api.Work.{ManifestWork}
use rcs_ocm_deployer.Runtime.Outcome.{done}
use rcs_ocm_deployer.Runtime.Client.{Client}
use rcs_ocm_deployer.Runtime.Closed.{capp_key_of}
use rcs_ocm_deployer.Runtime.Shared.{IsShared}

-- They are among the moves of others, of which none is one and two are one.
pub record IsApart (C : Client) (capp_key work_key : NamespacedName) (has : Capp → Bool)
    (G : IsShared C capp_key work_key has) : Type 0 where
  pub moves_none : (w : C.Cluster) → G.Moves w w
  pub moves_twice : {w v u : C.Cluster} → G.Moves w v → G.Moves v u → G.Moves w u
  -- what is read has the key that was asked for, and an answer the key of what was sent
  pub read_key :
      (k : NamespacedName) (w : C.Cluster) (c : Capp)
      → (C.get_capp k w).0 ≡ done c
      → capp_key_of c ≡ k
  pub answer_key :
      (w : C.Cluster) (a b : Capp)
      → (C.update_capp_status a w).0 ≡ done b
      → capp_key_of b ≡ capp_key_of a
  pub update_other :
      (w : C.Cluster) (a : Capp) → capp_key_of a ≢ capp_key → G.Moves w (C.update_capp a w).1
  pub create_other :
      (w : C.Cluster) (mw : ManifestWork)
      → mw.metadata.name ≢ work_key.name
      → G.Moves w (C.create_work mw w).1
