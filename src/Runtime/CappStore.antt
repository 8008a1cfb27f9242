-- ===== src/Runtime/CappStore.antt =====
-- What the API server promises of Capps to a client that nobody disturbs.
use rcs_ocm_deployer.Common.{String, ◌≡◌, Option, some}
use rcs_ocm_deployer.Api.Meta.{NamespacedName}
use rcs_ocm_deployer.Api.Workload.{Capp}
use rcs_ocm_deployer.Runtime.Outcome.{done}
use rcs_ocm_deployer.Runtime.Client.{Client}

abbrev pub capp_key : Capp → NamespacedName
capp_key c = record { name = c.name; namespace = c.namespace }

-- the object in another version and with another site in the status
abbrev pub restamped : Capp → String → String → Capp
restamped c version site = record c {
  metadata = record c.metadata { resource_version = version };
  status_site = site;
}

-- A read finds the stored object. An update of the stored version is accepted and answers with what
-- it stored, in a new version: an update of the object keeps the stored status, an update of the
-- status keeps everything else.
pub record IsCappStore (C : Client) : Type 0 where
  pub stored : C.Cluster → NamespacedName → Option Capp
  pub get_found :
      (w : C.Cluster) (k : NamespacedName) (c : Capp)
      → stored w k ≡ some c
      → (C.get_capp k w).0 ≡ done c
  pub update_current :
      (w : C.Cluster) (a c : Capp)
      → stored w (capp_key a) ≡ some c
      → a.resource_version ≡ c.resource_version
      → (version : String) × (let b = restamped a version c.status_site in
          ((C.update_capp a w).0 ≡ done b) × (stored (C.update_capp a w).1 (capp_key a) ≡ some b))
  pub status_current :
      (w : C.Cluster) (a c : Capp)
      → stored w (capp_key a) ≡ some c
      → a.resource_version ≡ c.resource_version
      → (version : String) × (let b = restamped c version a.status_site in
          ((C.update_capp_status a w).0 ≡ done b)
          × (stored (C.update_capp_status a w).1 (capp_key a) ≡ some b))
