-- ===== src/Tests/Server/Versions.antt =====
-- An API server with one Capp that accepts an update only of the stored version, as a client.
pub mod Laws
pub mod Stores
use rcs_ocm_deployer.Common.{
  ◌+◌, String, ◌<>◌, ◌≡◌, ◌≤◌, refl, Bool, true, false, not, ◌&&◌, none, some, List, [], ◌∷◌, arith,
  eq_iff, ◌==◌, if◌then◌else◌, Bool-cases, inl, inr, ap, sym, ◌∙◌, Option,
}
use text.Mathlib.TextLemmas.{length-append}
use Prim.Native.String.{count}
use rcs_ocm_deployer.Api.Meta.{NamespacedName}
use rcs_ocm_deployer.Api.Workload.{Capp}
use rcs_ocm_deployer.Api.Work.{ManifestWork}
use rcs_ocm_deployer.Runtime.Outcome.{status, conflict, Reply, done, failed, is_not_found}
use rcs_ocm_deployer.Runtime.Client.{Client}
use rcs_ocm_deployer.Runtime.Shared.{IsShared, IsSameVersion}
use rcs_ocm_deployer.Runtime.WorkStore.{accepted, answers_not_found, key_of}
use rcs_ocm_deployer.Sync.Adapters.{contains_finalizer}
use rcs_ocm_deployer.Tests.Server.{
  Objects, missing, is_key, is_key-eq, find_work, drop_work, updated, deleted, server, reply_of,
}

pub record Shelf : Type 0 where
  pub capp : Capp
  pub objects : Objects

abbrev capp_key_of : Capp → NamespacedName
capp_key_of c = record { name = c.name; namespace = c.namespace }

abbrev pub is_current : Capp → Capp → Bool
is_current a stored =
    is_key (capp_key_of a) (capp_key_of stored) && a.resource_version == stored.resource_version

abbrev pub next_version : Capp → Capp
next_version c = record c {
  metadata = record c.metadata { resource_version = "v" <> c.resource_version };
}

abbrev refused : Shelf → Reply Capp × Shelf
refused w = (failed (status conflict "the object has been modified"), w)

abbrev kept : Capp → Shelf → Reply Capp × Shelf
kept c w = (done (next_version c), record w { capp = next_version c })

abbrev on_shelf : {A : Type 0} → (Objects → Reply A × Objects) → Shelf → Reply A × Shelf
on_shelf q w = let (r, objects) = q w.objects in (r, record w { objects = objects })

-- an update keeps the stored status, an update of the status keeps everything else
abbrev pub versioned : Client
versioned = record {
  Cluster = Shelf;
  get_config = λ k. on_shelf (server.get_config k);
  get_capp = λ k w. (if is_key k (capp_key_of w.capp) then done w.capp else missing, w);
  get_placement = λ k. on_shelf (server.get_placement k);
  get_work = λ k. on_shelf (server.get_work k);
  get_config_map = λ k. on_shelf (server.get_config_map k);
  get_secret = λ k. on_shelf (server.get_secret k);
  list_decisions = λ o. on_shelf (server.list_decisions o);
  list_role_bindings = λ ns. on_shelf (server.list_role_bindings ns);
  list_managed_clusters = on_shelf server.list_managed_clusters;
  update_capp = λ a w.
      if is_current a w.capp
      then kept (record a { status_site = w.capp.status_site }) w
      else refused w;
  update_capp_status = λ a w.
      if is_current a w.capp
      then kept (record w.capp { status_site = a.status_site }) w
      else refused w;
  create_work = λ mw. on_shelf (server.create_work mw);
  update_work = λ mw. on_shelf (server.update_work mw);
  delete_work = λ mw. on_shelf (server.delete_work mw);
}
