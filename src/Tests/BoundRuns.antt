-- ===== src/Tests/BoundRuns.antt =====
-- The bounds on the calls of the API server at concrete values.
use rcs_ocm_deployer.Common.{◌≡◌, ◌≤◌, ◌+◌, refl, length}
use rcs_ocm_deployer.Runtime.Action.{fresh}
use rcs_ocm_deployer.Runtime.Counted.{counted, calls}
use rcs_ocm_deployer.Placement.Controller as Placement
use rcs_ocm_deployer.Placement.Controller.{pick_decision, deploy_on, deploy_picked}
use rcs_ocm_deployer.Placement.Controller.Bounds.{calls-reconcile-le_six}
use rcs_ocm_deployer.Placement.Adapters.{get_decision_cluster_name}
use rcs_ocm_deployer.Sync.Controller as Sync
use rcs_ocm_deployer.Sync.Adapters.{ensure_finalizer}
use rcs_ocm_deployer.Sync.Directors.{assemble_manifests}
use rcs_ocm_deployer.Sync.Directors.Auth
use rcs_ocm_deployer.Sync.Directors.Volumes
use rcs_ocm_deployer.Sync.Controller.Bounds.{calls-reconcile-le}
use rcs_ocm_deployer.Sync.Directors.Volumes.Gather.{config_map_refs, secret_refs}
use rcs_ocm_deployer.Tests.Server.{server}
use rcs_ocm_deployer.Tests.Data.{externals, request, web, objects}

calls-reconcile-le_six_example :
    calls (Placement.reconcile externals (counted server) request (fresh (objects, 0))) ≤ 6
calls-reconcile-le_six_example = calls-reconcile-le_six externals server request objects

-- the bound is met
six_calls : calls (Placement.reconcile externals (counted server) request (fresh (objects, 0))) ≡ 6
unfolding Placement.reconcile Placement.place pick_decision deploy_on deploy_picked
    get_decision_cluster_name
six_calls = refl

calls-reconcile-le_example :
    calls (Sync.reconcile externals (counted server) request (fresh (objects, 0)))
    ≤ 5 + length (config_map_refs web) + length (secret_refs web)
calls-reconcile-le_example = calls-reconcile-le externals server web request objects refl

-- one ConfigMap and two Secrets: the bound is met
eight_calls : calls (Sync.reconcile externals (counted server) request (fresh (objects, 0))) ≡ 8
unfolding Sync.reconcile Sync.reconcile_capp Sync.sync_manifest_work Sync.sync_assembled
    Sync.apply_manifests ensure_finalizer assemble_manifests Volumes.assemble_manifests
    Volumes.create_config_map_manifests Volumes.create_secret_manifests Volumes.get_resource_volumes
    Volumes.add_pull_secrets Volumes.gather_config_volumes Volumes.gather_config_value_from
    Volumes.gather_config_env_from Auth.assemble_manifests Auth.get_users_from_namespace
eight_calls = refl
