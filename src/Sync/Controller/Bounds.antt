-- ===== src/Sync/Controller/Bounds.antt =====
-- How many calls of the API server a run of the sync controller makes.
use rcs_ocm_deployer.Common.{ℕ, ◌+◌, ◌≤◌, suc, ◌≡◌, ap, Option, none, some, [], List, length, arith}
use rcs_ocm_deployer.Api.Meta.{NamespacedName}
use rcs_ocm_deployer.Api.Workload.{Capp}
use rcs_ocm_deployer.Api.Work.{Manifest}
use rcs_ocm_deployer.Runtime.Outcome.{Outcome, ok, err, panic, done}
use rcs_ocm_deployer.Runtime.Client.{Client, Externals}
use rcs_ocm_deployer.Runtime.Counted.{counted, calls}
use rcs_ocm_deployer.Runtime.Action.{Run, Action, fresh, pure, continue, caught}
use rcs_ocm_deployer.Runtime.Reconcile.{ReconcileResult}
use rcs_ocm_deployer.Sync.Adapters.{ensure_finalizer, handle_capp_deletion, create_manifest_work}
use rcs_ocm_deployer.Sync.Directors.{assemble_manifests}
use rcs_ocm_deployer.Sync.Directors.Volumes.Gather.{
  config_map_refs, secret_refs, get_resource_volumes-eq-refs,
}
use rcs_ocm_deployer.Sync.Directors.Reads.{
  reads_of, config_map_names, secret_names, assemble_manifests-keeps,
}
use rcs_ocm_deployer.Sync.Controller.{
  requeue_time, apply_manifests, sync_assembled, sync_manifest_work, reconcile_by, reconcile_capp,
  reconcile,
}

module _ (E : Externals) (C : Client) (c : Capp) where
  calls-assemble_manifests-le :
      (s : Run (C.Cluster × ℕ))
      → calls (assemble_manifests E (counted C) c s) ≤ s.cluster.1 + reads_of c
  calls-assemble_manifests-le s =
      assemble_manifests-keeps (counted C) (λ n t. t.cluster.1 ≤ n)
        (record {
          config_map = λ k t p. omega (arith, p);
          secret = λ k t p. omega (arith, p);
          role_bindings = λ ns t p. omega (arith, p);
          events = λ es t p. p;
          more = λ t p le. omega (arith, p, le);
        })
        E c s (omega arith)

  calls-apply_manifests-le :
      (manifests : List Manifest) (s : Run (C.Cluster × ℕ))
      → calls (apply_manifests E (counted C) c manifests s) ≤ s.cluster.1 + 2
  unfolding apply_manifests create_manifest_work
  calls-apply_manifests-le manifests s = ground arith

  calls-sync_assembled-le :
      (n : ℕ) (r : Outcome (List Manifest) × Run (C.Cluster × ℕ))
      → r.1.cluster.1 ≤ n
      → calls (continue (caught r) (sync_assembled E (counted C) c)) ≤ n + 2
  unfolding sync_assembled
  calls-sync_assembled-le n (ok manifests, s) h =
      omega (arith, calls-apply_manifests-le manifests s)
  calls-sync_assembled-le n (err e, s) h = omega arith
  calls-sync_assembled-le n (panic, s) h = omega arith

  calls-sync_manifest_work-le :
      (s : Run (C.Cluster × ℕ))
      → calls (sync_manifest_work E (counted C) c s) ≤ s.cluster.1 + reads_of c + 2
  unfolding sync_manifest_work
  calls-sync_manifest_work-le s =
      calls-sync_assembled-le (s.cluster.1 + reads_of c) (assemble_manifests E (counted C) c s)
        (calls-assemble_manifests-le s)

  calls-ensure_finalizer-le :
      (s : Run (C.Cluster × ℕ)) → calls (ensure_finalizer (counted C) c s) ≤ suc s.cluster.1
  unfolding ensure_finalizer
  calls-ensure_finalizer-le s = ground arith

  calls-handle_capp_deletion-le :
      (s : Run (C.Cluster × ℕ)) → calls (handle_capp_deletion (counted C) c s) ≤ s.cluster.1 + 2
  unfolding handle_capp_deletion
  calls-handle_capp_deletion-le s = ground arith

  -- the rest behind a call
  behind :
      {A : Type 0} (n m : ℕ) (r : Outcome A × Run (C.Cluster × ℕ))
      (f : A → Action (C.Cluster × ℕ) ReconcileResult)
      → r.1.cluster.1 ≤ n
      → ((a : A) (s : Run (C.Cluster × ℕ)) → calls (f a s) ≤ s.cluster.1 + m)
      → calls (continue r f) ≤ n + m
  behind n m (ok a, s) f h k = omega (arith, k a s)
  behind n m (err e, s) f h k = omega arith
  behind n m (panic, s) f h k = omega arith

  calls-reconcile_by-le :
      (o : Option ℕ) (s : Run (C.Cluster × ℕ))
      → calls (reconcile_by E (counted C) o c s) ≤ s.cluster.1 + reads_of c + 3
  unfolding reconcile_by
  calls-reconcile_by-le none s =
      let le =
        behind (suc s.cluster.1) (reads_of c + 2) (ensure_finalizer (counted C) c s)
          (λ u. sync_manifest_work E (counted C) c) (calls-ensure_finalizer-le s)
          (λ u t. omega (arith, calls-sync_manifest_work-le t)) in
      omega (arith, le)
  calls-reconcile_by-le (some t) s =
      let le =
        behind (s.cluster.1 + 2) 0 (handle_capp_deletion (counted C) c s)
          (λ u. pure (record { requeue_after = requeue_time })) (calls-handle_capp_deletion-le s)
          (λ u t. omega arith) in
      omega (arith, le)

  calls-reconcile_capp-le :
      (s : Run (C.Cluster × ℕ))
      → calls (reconcile_capp E (counted C) c s) ≤ s.cluster.1 + reads_of c + 3
  unfolding reconcile_capp
  calls-reconcile_capp-le s = calls-reconcile_by-le c.deletion_timestamp s

  -- Whatever else the client answers: for the Capp that was read, a run makes at most five calls of
  -- the API server, and one for each reference to a ConfigMap and each one to a Secret in it.
  pub calls-reconcile-le :
      (req : NamespacedName) (w : C.Cluster)
      → (C.get_capp req w).0 ≡ done c
      → calls (reconcile E (counted C) req (fresh (w, 0)))
        ≤ 5 + length (config_map_refs c) + length (secret_refs c)
  unfolding reconcile
  calls-reconcile-le req w h =
      let le =
        calls-reconcile_capp-le
          (record { cluster = ((C.get_capp req w).1, 1); writes = []; events = [] }) in
      let same = get_resource_volumes-eq-refs c in
      let config_maps : length (config_map_names c) ≡ length (config_map_refs c) =
        ap (λ v. length v.config_maps) same in
      let secrets : length (secret_names c) ≡ length (secret_refs c) =
        ap (λ v. length v.secrets) same in
      rw h (omega (arith, le, config_maps, secrets))
