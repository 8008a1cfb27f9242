-- ===== src/Runtime/WorkStore.antt =====
-- What the API server promises of ManifestWorks: a map from names to objects.
use rcs_ocm_deployer.Common.{◌≡◌, Bool, true, false, Option, none, some, []}
use rcs_ocm_deployer.Api.Meta.{NamespacedName}
use rcs_ocm_deployer.Api.Work.{ManifestWork}
use rcs_ocm_deployer.Runtime.Outcome.{Reply, done, failed, is_not_found}
use rcs_ocm_deployer.Runtime.Client.{Client}

abbrev pub accepted : {A : Type 0} → Reply A → Bool
accepted (done a) = true
accepted (failed e) = false

abbrev pub answers_not_found : {A : Type 0} → Reply A → Bool
answers_not_found (done a) = false
answers_not_found (failed e) = is_not_found e

abbrev pub key_of : ManifestWork → NamespacedName
key_of mw = record { name = mw.metadata.name; namespace = mw.metadata.namespace }

-- A read finds the stored object or answers NotFound. A write that the server accepts is seen by
-- the next read, where the server may fill in the metadata; a deletion is seen at once for an
-- object without finalizers. Writes may be refused at any time.
pub record IsWorkStore (C : Client) : Type 0 where
  pub stored : C.Cluster → NamespacedName → Option ManifestWork
  pub stored_key :
      (w : C.Cluster) (k : NamespacedName) (mw : ManifestWork)
      → stored w k ≡ some mw
      → key_of mw ≡ k
  pub get_stored :
      (w : C.Cluster) (k : NamespacedName) (mw : ManifestWork)
      → (C.get_work k w).0 ≡ done mw
      → stored w k ≡ some mw
  pub get_found :
      (w : C.Cluster) (k : NamespacedName) (mw : ManifestWork)
      → stored w k ≡ some mw
      → (C.get_work k w).0 ≡ done mw
  pub get_missing :
      (w : C.Cluster) (k : NamespacedName)
      → stored w k ≡ none
      → answers_not_found (C.get_work k w).0 ≡ true
  pub create_stored :
      (w : C.Cluster) (mw : ManifestWork)
      → accepted (C.create_work mw w).0 ≡ true
      → (kept : ManifestWork) × (stored (C.create_work mw w).1 (key_of mw) ≡ some kept)
        × (kept.manifests ≡ mw.manifests)
  pub update_stored :
      (w : C.Cluster) (mw : ManifestWork)
      → accepted (C.update_work mw w).0 ≡ true
      → (kept : ManifestWork) × (stored (C.update_work mw w).1 (key_of mw) ≡ some kept)
        × (kept.manifests ≡ mw.manifests)
  pub delete_stored :
      (w : C.Cluster) (mw : ManifestWork)
      → mw.metadata.finalizers ≡ []
      → accepted (C.delete_work mw w).0 ≡ true
      → stored (C.delete_work mw w).1 (key_of mw) ≡ none
