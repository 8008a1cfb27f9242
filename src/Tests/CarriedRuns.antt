-- ===== src/Tests/CarriedRuns.antt =====
-- The theorem on the manifests of a Capp at a concrete Capp, and names that are not carried.
use rcs_ocm_deployer.Common.{◌≡◌, refl, ◌↔◌, some, none, List, [], ◌∷◌, arith}
use rcs_ocm_deployer.Common.Any.{Any}
use rcs_ocm_deployer.Api.Workload.{Capp, zero_log}
use rcs_ocm_deployer.Api.Work.{Manifest}
use rcs_ocm_deployer.Runtime.Outcome.{ok}
use rcs_ocm_deployer.Runtime.Action.{fresh}
use rcs_ocm_deployer.Sync.Builders.{build_config_map}
use rcs_ocm_deployer.Sync.Directors.{assemble_manifests}
use rcs_ocm_deployer.Sync.Directors.Auth
use rcs_ocm_deployer.Sync.Directors.Volumes
use rcs_ocm_deployer.Sync.Directors.Volumes.{get_resource_volumes}
use rcs_ocm_deployer.Sync.Directors.Volumes.References.{
  of_config_map, of_secret, in_init_env_from, in_projected, in_log_spec, in_route_spec, Refers,
}
use rcs_ocm_deployer.Sync.Directors.Carried.{IsCarried, assemble_manifests-carries_iff}
use rcs_ocm_deployer.Tests.Server.{server, server-IsQuiet}
use rcs_ocm_deployer.Tests.Data.{externals, container, web, placed_web, settings, objects}

returned :
    (ms : List Manifest) × ((assemble_manifests externals server placed_web (fresh objects)).0
      ≡ ok ms)
unfolding assemble_manifests Volumes.assemble_manifests Volumes.create_config_map_manifests
    Volumes.create_secret_manifests get_resource_volumes Volumes.add_pull_secrets
    Volumes.gather_config_volumes Volumes.gather_config_value_from Volumes.gather_config_env_from
    Auth.assemble_manifests Auth.get_users_from_namespace
returned = (_, refl)

assemble_manifests-carries_iff_example :
    Any (λ x. x ≡ build_config_map settings) returned.0
    ↔ IsCarried server server-IsQuiet placed_web externals objects (build_config_map settings)
assemble_manifests-carries_iff_example =
    assemble_manifests-carries_iff server server-IsQuiet placed_web externals
      (build_config_map settings) (fresh objects) returned.0 returned.1

-- the binary contents of a ConfigMap are not in its manifest
binary_lost :
    build_config_map settings ≡ build_config_map (record settings { binary_contents = none })
unfolding build_config_map
binary_lost = refl

-- a Capp that names an object in an init container, a projected volume, the log spec or the route
abbrev elsewhere : Capp
elsewhere = record web {
  spec = record web.spec {
    tls_secret = "tls";
    log_spec = record zero_log { password_secret = "elastic" };
    pod = record {
      init_containers = container ∷ [];
      containers = [];
      volumes =
          record {
            name = "all";
            config_map = none;
            secret = none;
            projected = record { config_map = none; secret = some "token" } ∷ [];
          }
          ∷ [];
      image_pull_secrets = [];
    };
  };
}

named_elsewhere :
    Refers of_config_map elsewhere "settings" in_init_env_from
    × Refers of_secret elsewhere "token" in_projected
    × Refers of_secret elsewhere "elastic" in_log_spec
    × Refers of_secret elsewhere "tls" in_route_spec
named_elsewhere = ground arith

-- none of these is collected
nothing_collected : get_resource_volumes elsewhere ≡ record { config_maps = []; secrets = [] }
unfolding get_resource_volumes Volumes.add_pull_secrets Volumes.gather_config_volumes
    Volumes.gather_config_value_from Volumes.gather_config_env_from
nothing_collected = refl
