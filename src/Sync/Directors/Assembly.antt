-- ===== src/Sync/Directors/Assembly.antt =====
-- The manifests of a Capp on a quiet cluster: internal/sync/directors as one description.
use rcs_ocm_deployer.Common.{◌<>◌, ◌≡◌, refl, List, [], ◌∷◌, ◌++◌, map}
use rcs_ocm_deployer.Api.Workload.{Capp}
use rcs_ocm_deployer.Api.Work.{Manifest, RoleBinding}
use rcs_ocm_deployer.Runtime.Outcome.{Outcome, ok, err, errorf, error_text, Reply, done, failed}
use rcs_ocm_deployer.Runtime.Client.{Client, Externals}
use rcs_ocm_deployer.Runtime.Quiet.{IsQuiet}
use rcs_ocm_deployer.Runtime.Action.{Run}
use rcs_ocm_deployer.Sync.Builders.{
  build_capp, build_namespace, build_config_map, build_secret, build_role, build_role_binding,
}
use rcs_ocm_deployer.Sync.Directors.{assemble_manifests}
use rcs_ocm_deployer.Sync.Directors.Auth
use rcs_ocm_deployer.Sync.Directors.Auth.{user_subject}
use rcs_ocm_deployer.Sync.Directors.Auth.Readers.{log_readers, subjects-eq-log_readers}
use rcs_ocm_deployer.Sync.Directors.Volumes
use rcs_ocm_deployer.Sync.Directors.Volumes.{
  Partial, create_config_map_manifests, create_secret_manifests,
}
use rcs_ocm_deployer.Sync.Directors.Volumes.Gather.{
  config_map_refs, secret_refs, get_resource_volumes-eq-refs,
}
use rcs_ocm_deployer.Sync.Directors.Volumes.Fetch.{
  collect, config_map_at, secret_at, IsLoopResult, config_maps-collect, secrets-collect,
}

abbrev pub outcome_of : {A : Type 0} → Reply A → Outcome A
outcome_of (done a) = ok a
outcome_of (failed e) = err e

module _ (C : Client) (Q : IsQuiet C) (c : Capp) where
  -- The manifests for the references, ConfigMaps first; or the first error.
  abbrev pub after_config_maps :
      Reply (List Manifest) → Reply (List Manifest) → Reply (List Manifest)
  after_config_maps (failed e) r =
      failed (errorf ("unable to fetch ConfigMap from Capp spec: " <> error_text e))
  after_config_maps (done cms) (failed e) =
      failed (errorf ("unable to fetch Secret from Capp spec: " <> error_text e))
  after_config_maps (done cms) (done ss) = done (cms ++ ss)

  abbrev pub volumes_of : C.Cluster → Reply (List Manifest)
  volumes_of w =
      after_config_maps
        (collect build_config_map (config_map_at C Q c.namespace w) (config_map_refs c))
        (collect build_secret (secret_at C Q c.namespace w) (secret_refs c))

  volumes_from :
      (cms ss : Reply (List Manifest)) (s : Run C.Cluster) (names : Volumes.Names)
      → IsLoopResult "unable to fetch ConfigMap from Capp spec: " cms [] s
          (create_config_map_manifests C names.config_maps c.namespace s)
      → IsLoopResult "unable to fetch Secret from Capp spec: " ss [] s
          (create_secret_manifests C names.secrets c.namespace s)
      → Volumes.get_resource_volumes c ≡ names
      → Volumes.assemble_manifests C c s ≡ (outcome_of (after_config_maps cms ss), s)
  unfolding Volumes.assemble_manifests
  volumes_from (failed e) ss s names (part, h) k g = rw (g, h)
  volumes_from (done cms) (failed e) s names h (part, k) g = rw (g, h, g, k)
  volumes_from (done cms) (done ss) s names h k g = rw (g, h, g, k)

  volumes-collect :
      (s : Run C.Cluster)
      → Volumes.assemble_manifests C c s ≡ (outcome_of (volumes_of s.cluster), s)
  volumes-collect s =
      volumes_from _ _ s _ (config_maps-collect C Q c.namespace (config_map_refs c) s)
        (secrets-collect C Q c.namespace (secret_refs c) s) (get_resource_volumes-eq-refs c)

  -- The two manifests for the readers of the logs.
  abbrev pub auth_of : Reply (List RoleBinding) → Reply (List Manifest)
  auth_of (failed e) =
      failed (errorf ("failed to list roleBindings in the namespace: " <> error_text e))
  auth_of (done items) = done (
      build_role c.name c.namespace
      ∷ build_role_binding c.name c.namespace (map user_subject (log_readers items))
      ∷ [])

  auth_from :
      (r : Reply (List RoleBinding)) (s : Run C.Cluster)
      → (C.list_role_bindings c.namespace s.cluster).0 ≡ r
      → Auth.assemble_manifests C c s ≡ (outcome_of (auth_of r), s)
  unfolding Auth.assemble_manifests Auth.get_users_from_namespace
  auth_from (failed e) s h = rw (h, Q.role_bindings c.namespace s.cluster)
  auth_from (done items) s h =
      rw (h, Q.role_bindings c.namespace s.cluster, subjects-eq-log_readers)

  module _ (E : Externals) where
    -- The Capp, its namespace, then the two lists; or the first error.
    abbrev pub after_volumes : Reply (List Manifest) → Reply (List Manifest) → Reply (List Manifest)
    after_volumes (failed e) r = failed e
    after_volumes (done vs) (failed e) = failed e
    after_volumes (done vs) (done ms) =
        done (build_capp E c ∷ build_namespace E c.namespace ∷ (vs ++ ms))

    abbrev pub assembled : C.Cluster → Reply (List Manifest)
    assembled w = after_volumes (volumes_of w) (auth_of (C.list_role_bindings c.namespace w).0)

    -- the outcome is that one, and neither the cluster nor the writes have changed
    abbrev pub IsAssembled :
        Reply (List Manifest) → Run C.Cluster → Outcome (List Manifest) × Run C.Cluster → Type 0
    IsAssembled r s o = (o.0 ≡ outcome_of r) × (o.1.cluster ≡ s.cluster) × (o.1.writes ≡ s.writes)

    from_volumes :
        (v a : Reply (List Manifest)) (s : Run C.Cluster)
        → Volumes.assemble_manifests C c s ≡ (outcome_of v, s)
        → Auth.assemble_manifests C c s ≡ (outcome_of a, s)
        → IsAssembled (after_volumes v a) s (assemble_manifests E C c s)
    unfolding assemble_manifests
    from_volumes (failed e) a s h k = rw h (refl, refl, refl)
    from_volumes (done vs) (failed e) s h k = rw (h, k) (refl, refl, refl)
    from_volumes (done vs) (done ms) s h k = rw (h, k) (refl, refl, refl)

    -- On a quiet cluster the directors return the Capp, its namespace, a manifest for each
    -- ConfigMap and then for each Secret that `envFrom` of the containers, `env` of the containers,
    -- the configMap and secret sources of the volumes, or the image pull secrets name, in that
    -- order and once for each naming, and the Role and the RoleBinding for the readers of the logs;
    -- or the error of the first read that failed. There is no manifest for what only init containers,
    -- projected volumes, the log spec or the route name. They write nothing.
    pub assemble_manifests-eq-assembled :
        (s : Run C.Cluster) → IsAssembled (assembled s.cluster) s (assemble_manifests E C c s)
    assemble_manifests-eq-assembled s =
        from_volumes (volumes_of s.cluster) (auth_of _) s (volumes-collect s) (auth_from _ s refl)
