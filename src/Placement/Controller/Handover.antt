-- ===== src/Placement/Controller/Handover.antt =====
-- What a run of the placement controller writes, for every client and whatever others write.
use rcs_ocm_deployer.Common.{
  String, ◌≡◌, ◌≢◌, refl, ◌∙◌, some, none, Option, List, [], ◌∷◌, arith, eq_iff,
}
use rcs_ocm_deployer.Common.Dict.{Dict, lookup_nil, lookup, lookup-insert}
use rcs_ocm_deployer.Api.Meta.{NamespacedName}
use rcs_ocm_deployer.Api.Workload.{Capp, RcsConfig}
use rcs_ocm_deployer.Runtime.Client.{Client, Externals}
use rcs_ocm_deployer.Runtime.Outcome.{Outcome, ok, err, panic}
use rcs_ocm_deployer.Runtime.Action.{
  Run, Write, caught, continue, fresh, update_capp, update_capp_status,
}
use rcs_ocm_deployer.Utils.{has_placement_key}
use rcs_ocm_deployer.Placement.Adapters.{set_has_placement, with_placement}
use rcs_ocm_deployer.Placement.Controller.{
  pick_decision, deploy_on, deploy_picked, not_picked, not_picked, place, reconcile,
  placements_namespace_of,
}

-- Nothing; the status; or the status and then the Capp, whose annotation names the status's
-- cluster. No cluster is empty.
abbrev pub IsHandover : List Write → Type 0
IsHandover [] = Unit
IsHandover (update_capp_status c ∷ []) = c.status_site ≢ ""
IsHandover (update_capp_status c ∷ update_capp a ∷ []) =
    (c.status_site ≢ "") × (lookup_nil has_placement_key a.annotations ≡ some c.status_site)
IsHandover _ = ⊥

lookup-set_has_placement :
    (annotations : Option (Dict String)) (cluster : String)
    → lookup has_placement_key (set_has_placement annotations cluster) ≡ some cluster
unfolding set_has_placement
lookup-set_has_placement none cluster = simp (lookup-insert)
lookup-set_has_placement (some m) cluster = simp (lookup-insert)

-- The annotation that the adapter sets is found again.
pub lookup-with_placement :
    (c : Capp) (cluster : String)
    → lookup_nil has_placement_key (with_placement c cluster).annotations ≡ some cluster
unfolding with_placement
lookup-with_placement c cluster = lookup-set_has_placement c.annotations cluster

module _ (E : Externals) (C : Client) where
  pub deploy_on-IsHandover :
      (capp : Capp) (cluster : String) (s : Run C.Cluster)
      → cluster ≢ ""
      → s.writes ≡ []
      → IsHandover (deploy_on E C capp cluster s).1.writes
  unfolding deploy_on
  deploy_on-IsHandover capp cluster s h e = grind (arith, lookup-with_placement)

  pub writes-pick_decision :
      (capp : Capp) (placements : List String) (ns : String) (s : Run C.Cluster)
      → (pick_decision E C capp placements ns s).1.writes ≡ s.writes
  unfolding pick_decision
  writes-pick_decision capp placements ns s = ground arith

  pub pick_decision-ne_empty :
      (capp : Capp) (placements : List String) (ns cluster : String) (s : Run C.Cluster)
      → (pick_decision E C capp placements ns s).0 ≡ ok cluster
      → cluster ≢ ""
  unfolding pick_decision
  pick_decision-ne_empty capp placements ns cluster s h e = ground (arith, eq_iff cluster "")

  deploy_picked-IsHandover :
      (capp : Capp) (r : Outcome String × Run C.Cluster)
      → ((cluster : String) → r.0 ≡ ok cluster → cluster ≢ "")
      → r.1.writes ≡ []
      → IsHandover (continue (caught r) (deploy_picked E C capp)).1.writes
  unfolding deploy_picked not_picked
  deploy_picked-IsHandover capp (ok cluster, s) h e =
      deploy_on-IsHandover capp cluster s (h cluster refl) e
  deploy_picked-IsHandover capp (err x, s) h e = ground arith
  deploy_picked-IsHandover capp (panic, s) h e = ground arith

  place-IsHandover :
      (config : RcsConfig) (capp : Capp) (s : Run C.Cluster)
      → s.writes ≡ []
      → IsHandover (place E C config capp s).1.writes
  unfolding place
  place-IsHandover config capp s e =
      let ns = placements_namespace_of config in
      let picked = pick_decision E C capp config.spec.placements ns s in
      ground (
        arith,
        eq_iff capp.spec.site "",
        deploy_on-IsHandover capp capp.spec.site s,
        deploy_picked-IsHandover capp picked
            (λ cluster. pick_decision-ne_empty capp config.spec.placements ns cluster s)
            (writes-pick_decision capp config.spec.placements ns s ∙ e),
      )

  -- In a run that begins with no writes, whatever the client answers: the writes are none, or the
  -- status, or the status and then the Capp with the annotation for the status's cluster; and
  -- that cluster is not empty.
  pub reconcile-IsHandover :
      (req : NamespacedName) (w : C.Cluster) → IsHandover (reconcile E C req (fresh w)).1.writes
  unfolding reconcile
  reconcile-IsHandover req w = grind (arith, place-IsHandover)
