-- ===== src/Tests/Server/Versions/Stores.antt =====
-- The server with versions as a quiet cluster, a store of ManifestWorks and a store of Capps.
use rcs_ocm_deployer.Common.{
  String, ◌<>◌, ◌≡◌, refl, sym, ap, true, Option, none, some, arith, eq_iff, Bool-cases, inl, inr,
  if◌then◌else◌,
}
use rcs_ocm_deployer.Api.Meta.{NamespacedName}
use rcs_ocm_deployer.Api.Workload.{Capp}
use rcs_ocm_deployer.Runtime.Outcome.{done}
use rcs_ocm_deployer.Runtime.Quiet.{IsQuiet}
use rcs_ocm_deployer.Runtime.WorkStore.{IsWorkStore}
use rcs_ocm_deployer.Runtime.CappStore.{IsCappStore, capp_key, restamped}
use rcs_ocm_deployer.Tests.Server.{server-IsWorkStore, is_key, is_key_self}
use rcs_ocm_deployer.Tests.Server.Versions.{Shelf, versioned, is_current}

pub versioned-IsQuiet : IsQuiet versioned
versioned-IsQuiet = record {
  config = λ k w. refl;
  capp = λ k w. refl;
  placement = λ k w. refl;
  work = λ k w. refl;
  config_map = λ k w. refl;
  secret = λ k w. refl;
  decisions = λ o w. refl;
  role_bindings = λ ns w. refl;
  managed_clusters = λ w. refl;
}

abbrev pub versioned-IsWorkStore : IsWorkStore versioned
versioned-IsWorkStore = record {
  stored = λ w. server-IsWorkStore.stored w.objects;
  stored_key = λ w. server-IsWorkStore.stored_key w.objects;
  get_stored = λ w. server-IsWorkStore.get_stored w.objects;
  get_found = λ w. server-IsWorkStore.get_found w.objects;
  get_missing = λ w. server-IsWorkStore.get_missing w.objects;
  create_stored = λ w. server-IsWorkStore.create_stored w.objects;
  update_stored = λ w. server-IsWorkStore.update_stored w.objects;
  delete_stored = λ w. server-IsWorkStore.delete_stored w.objects;
}

abbrev pub stored_capp : Shelf → NamespacedName → Option Capp
stored_capp w k = if is_key k (capp_key w.capp) then some w.capp else none

pub found :
    (w : Shelf) (k : NamespacedName) (c : Capp)
    → stored_capp w k ≡ some c
    → (versioned.get_capp k w).0 ≡ done c
found w k c h = ground arith

current :
    (w : Shelf) (a c : Capp)
    → stored_capp w (capp_key a) ≡ some c
    → a.resource_version ≡ c.resource_version
    → (is_current a w.capp ≡ true) × (w.capp ≡ c) × (is_key (capp_key a) (capp_key c) ≡ true)
current w a c h same = elim (Bool-cases (is_key (capp_key a) (capp_key w.capp))) [
  | inl e ↦
      let it : w.capp ≡ c = ground arith in
      let version : a.resource_version ≡ w.capp.resource_version = rw it same in
      let key : is_key (capp_key a) (capp_key c) ≡ true = rw (sym it) e in
      (ground (arith, eq_iff a.resource_version w.capp.resource_version), it, key)
  | inr e ↦ absurd (ground arith)
]

pub object_updated :
    (w : Shelf) (a c : Capp)
    → stored_capp w (capp_key a) ≡ some c
    → a.resource_version ≡ c.resource_version
    → (version : String) × (let b = restamped a version c.status_site in
        ((versioned.update_capp a w).0 ≡ done b)
        × (stored_capp (versioned.update_capp a w).1 (capp_key a) ≡ some b))
object_updated w a c h same =
    let (now, it, key) = current w a c h same in
    (
      "v" <> a.resource_version,
      rw (now, is_key_self (capp_key a), ap (λ x. x.status_site) it) (refl, refl),
    )

pub status_updated :
    (w : Shelf) (a c : Capp)
    → stored_capp w (capp_key a) ≡ some c
    → a.resource_version ≡ c.resource_version
    → (version : String) × (let b = restamped c version a.status_site in
        ((versioned.update_capp_status a w).0 ≡ done b)
        × (stored_capp (versioned.update_capp_status a w).1 (capp_key a) ≡ some b))
status_updated w a c h same =
    let (now, it, key) = current w a c h same in
    ("v" <> c.resource_version, rw (now, it, key) (refl, refl))

abbrev pub versioned-IsCappStore : IsCappStore versioned
versioned-IsCappStore = record {
  stored = stored_capp;
  get_found = found;
  update_current = object_updated;
  status_current = status_updated;
}
