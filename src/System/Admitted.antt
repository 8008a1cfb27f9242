-- ===== src/System/Admitted.antt =====
-- The validating webhook and the placement controller: a site that was admitted is deployed on.
use rcs_ocm_deployer.Common.{
  String, ◌≡◌, ◌≢◌, inl, inr, refl, ◌∙◌, sym, true, false, Option, List, [], ◌∷◌, contains, ◌||◌,
  ◌==◌, arith, eq_iff,
}
use rcs_ocm_deployer.Api.Meta.{NamespacedName}
use rcs_ocm_deployer.Api.Workload.{Capp, RcsConfig}
use rcs_ocm_deployer.Runtime.Outcome.{ok, done}
use rcs_ocm_deployer.Runtime.Client.{Client, Externals}
use rcs_ocm_deployer.Runtime.Quiet.{IsQuiet}
use rcs_ocm_deployer.Runtime.Action.{Run, Write, fresh, update_capp_status}
use rcs_ocm_deployer.Utils.{rcs_config_name, rcs_config_namespace}
use rcs_ocm_deployer.Placement.Controller as PlacementController
use rcs_ocm_deployer.Placement.Controller.{deploy_on, place}
use rcs_ocm_deployer.Webhooks.Admission.{Codec, allowed, FieldErrors, HostChecks}
use rcs_ocm_deployer.Webhooks.Common.Sites.{IsSite}
use rcs_ocm_deployer.Webhooks.Domain.Accepted.{IsCollecting}
use rcs_ocm_deployer.Webhooks.Validator.{handle_capp}
use rcs_ocm_deployer.Webhooks.Validator.Allowed.{handle_capp-allowed_iff}

abbrev pub rcs_config_key : NamespacedName
rcs_config_key = record { name = rcs_config_name; namespace = rcs_config_namespace }

-- The first write sets the site in the status of the Capp.
abbrev pub PlacesOn : Capp → String → List Write → Type 0
PlacesOn c cluster (update_capp_status a ∷ ws) = a ≡ record c { status_site = cluster }
PlacesOn c cluster _ = ⊥

module _ (C : Client) where
  -- The server lists the cluster among the managed clusters.
  abbrev pub IsManaged : C.Cluster → String → Type 0
  IsManaged w cluster =
      (clusters : List String) × ((C.list_managed_clusters w).0 ≡ done clusters)
      × (contains clusters cluster ≡ true)

  IsSite-IsManaged :
      (w : C.Cluster) (placements : List String) (site : String)
      → IsSite C w placements site
      → site ≢ ""
      → contains placements site ≡ false
      → IsManaged w site
  IsSite-IsManaged w placements site (inl e) named other = absurd (named e)
  IsSite-IsManaged w placements site (inr (inl e)) named other = absurd (ground arith)
  IsSite-IsManaged w placements site (inr (inr listed)) named other = listed

  module _ (E : Externals) where
    deploy_on-PlacesOn :
        (c : Capp) (cluster : String) (s : Run C.Cluster)
        → s.writes ≡ []
        → PlacesOn c cluster (deploy_on E C c cluster s).1.writes
    unfolding deploy_on
    deploy_on-PlacesOn c cluster s e = ground arith

    place-PlacesOn :
        (config : RcsConfig) (c : Capp) (s : Run C.Cluster)
        → s.writes ≡ []
        → c.spec.site ≢ ""
        → contains config.spec.placements c.spec.site ≡ false
        → PlacesOn c c.spec.site (place E C config c s).1.writes
    unfolding place
    place-PlacesOn config c s e named other =
        let direct : (c.spec.site == "" || contains config.spec.placements c.spec.site) ≡ false =
          ground (arith, eq_iff c.spec.site "") in
        rw direct (deploy_on-PlacesOn c c.spec.site s e)

  module _ (E : Externals) (J : Codec) (F : FieldErrors) (L : IsCollecting F) (H : HostChecks)
      (Q : IsQuiet C) where
    admitted :
        (config : RcsConfig) (c : Capp) (old : Option Capp) (w : C.Cluster)
        → (C.get_config rcs_config_key w).0 ≡ done config
        → (handle_capp E J F H C c old (fresh w)).0 ≡ ok (allowed "")
        → IsSite C w config.spec.placements c.spec.site
    admitted config c old w read e =
        let (config', same, site, _, _) =
          (handle_capp-allowed_iff E J F L H C c old (fresh w)).0 e in
        let read_twice : done config' ≡ done config = sym same ∙ read in
        let eq : config' ≡ config = cc in rw (Q.config rcs_config_key w, eq) at site

    -- On a quiet cluster whose RCSConfig can be read, the validating webhook admits a Capp with a
    -- site that is no placement. Then the site is one of the managed clusters that the server
    -- lists, and the first write of a run of the placement controller that reads this Capp sets the
    -- site in the status to it.
    pub admitted-PlacesOn :
        (config : RcsConfig) (c : Capp) (old : Option Capp) (req : NamespacedName) (w : C.Cluster)
        → (C.get_config rcs_config_key w).0 ≡ done config
        → (C.get_capp req w).0 ≡ done c
        → c.spec.site ≢ ""
        → contains config.spec.placements c.spec.site ≡ false
        → (handle_capp E J F H C c old (fresh w)).0 ≡ ok (allowed "")
        → IsManaged w c.spec.site
          × PlacesOn c c.spec.site (PlacementController.reconcile E C req (fresh w)).1.writes
    unfolding PlacementController.reconcile
    admitted-PlacesOn config c old req w read got named other e =
        let managed =
          IsSite-IsManaged w config.spec.placements c.spec.site (admitted config c old w read e)
            named other in
        (
          managed,
          rw (read, Q.config rcs_config_key w, got) (place-PlacesOn E config c _ refl named other),
        )
