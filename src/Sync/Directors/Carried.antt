-- ===== src/Sync/Directors/Carried.antt =====
-- Which manifests internal/sync/directors returns for a Capp, one by one.
use rcs_ocm_deployer.Common.{String, ◌≡◌, refl, sym, ◌∙◌, ◌↔◌, ◌⊎◌, List, [], ◌∷◌, ◌++◌, map, arith}
use rcs_ocm_deployer.Common.Any.{Any, append_iff, Any-exists_iff}
use rcs_ocm_deployer.Api.Workload.{Capp}
use rcs_ocm_deployer.Api.Work.{Manifest, RoleBinding}
use rcs_ocm_deployer.Runtime.Outcome.{ok, Reply, done, failed}
use rcs_ocm_deployer.Runtime.Client.{Client, Externals}
use rcs_ocm_deployer.Runtime.Quiet.{IsQuiet}
use rcs_ocm_deployer.Runtime.Action.{Run}
use rcs_ocm_deployer.Sync.Builders.{
  build_capp, build_namespace, build_config_map, build_secret, build_role, build_role_binding,
}
use rcs_ocm_deployer.Sync.Directors.{assemble_manifests}
use rcs_ocm_deployer.Sync.Directors.Assembly.{
  outcome_of, volumes_of, auth_of, after_config_maps, after_volumes,
  assemble_manifests-eq-assembled,
}
use rcs_ocm_deployer.Sync.Directors.Auth.{user_subject}
use rcs_ocm_deployer.Sync.Directors.Auth.Readers.{log_readers}
use rcs_ocm_deployer.Sync.Directors.Volumes.Gather.{config_map_refs, secret_refs}
use rcs_ocm_deployer.Sync.Directors.Volumes.Fetch.{collect, config_map_at, secret_at}
use rcs_ocm_deployer.Sync.Directors.Volumes.References.{
  Kind, of_config_map, of_secret, IsRead, config_map_refs_iff, secret_refs_iff,
}

-- the manifest of the object of that name, which the reads return
abbrev Fetched : {A : Type 0} → (A → Manifest) → (String → Reply A) → Manifest → String → Type 0
Fetched {A = A} build get m n = (x : A) × (get n ≡ done x) × (build x ≡ m)

module _ {A : Type 0} (build : A → Manifest) (get : String → Reply A) (m : Manifest) where
  -- one round, from what the first read and the others return
  collect_round_iff :
      (n : String) (names : List String) (ms : List Manifest) (got : Reply A)
      (rest : Reply (List Manifest))
      → get n ≡ got
      → collect build get names ≡ rest
      → ((vs : List Manifest)
          → rest ≡ done vs
          → Any (λ x. x ≡ m) vs ↔ Any (Fetched build get m) names)
      → collect build get (n ∷ names) ≡ done ms
      → Any (λ x. x ≡ m) ms ↔ Any (Fetched build get m) (n ∷ names)
  collect_round_iff n names ms (failed e) rest g r ih h = ground arith
  collect_round_iff n names ms (done x) (failed e) g r ih h = ground arith
  collect_round_iff n names ms (done x) (done vs) g r ih h = let tail = ih vs refl in ground arith

  collect-done_iff :
      (names : List String) (ms : List Manifest)
      → collect build get names ≡ done ms
      → Any (λ x. x ≡ m) ms ↔ Any (Fetched build get m) names
  collect-done_iff [] ms h = ground arith
  collect-done_iff (n ∷ names) ms h =
      collect_round_iff n names ms _ _ refl refl (collect-done_iff names) h

outcome_of-done : {A : Type 0} (r : Reply A) (a : A) → outcome_of r ≡ ok a → r ≡ done a
outcome_of-done (done b) a h = cc
outcome_of-done (failed e) a h = cc

module _ (C : Client) (Q : IsQuiet C) (c : Capp) (E : Externals) where
  -- the manifest of an object of that kind that the Capp names at a place that is read
  abbrev CarriesObject :
      {A : Type 0} → Kind → (A → Manifest) → (String → Reply A) → Manifest → Type 0
  CarriesObject k build get m = (n : String) × IsRead k c n × Fetched build get m n

  abbrev CarriesAuth : List RoleBinding → Manifest → Type 0
  CarriesAuth items m =
      (build_role c.name c.namespace ≡ m)
      ⊎ (build_role_binding c.name c.namespace (map user_subject (log_readers items)) ≡ m)

  -- A manifest that the directors return when the cluster is in that state.
  abbrev pub IsCarried : C.Cluster → Manifest → Type 0
  IsCarried w m =
      (build_capp E c ≡ m)
      ⊎ (build_namespace E c.namespace ≡ m)
      ⊎ CarriesObject of_config_map build_config_map (config_map_at C Q c.namespace w) m
      ⊎ CarriesObject of_secret build_secret (secret_at C Q c.namespace w) m
      ⊎ ((items : List RoleBinding) × ((C.list_role_bindings c.namespace w).0 ≡ done items)
          × CarriesAuth items m)

  objects-carried_iff :
      {A : Type 0} (k : Kind) (build : A → Manifest) (get : String → Reply A) (m : Manifest)
      (names : List String) (ms : List Manifest)
      → ((n : String) → Any (λ x. x ≡ n) names ↔ IsRead k c n)
      → collect build get names ≡ done ms
      → Any (λ x. x ≡ m) ms ↔ CarriesObject k build get m
  objects-carried_iff k build get m names ms h e =
      let collected = collect-done_iff build get m names ms e in
      let named = Any-exists_iff (Fetched build get m) names in
      (
        λ a. let (n, i, f) = named.0 (collected.0 a) in (n, (h n).0 i, f),
        λ (n, r, f). collected.1 (named.1 (n, (h n).1 r, f)),
      )

  volumes-carried_iff :
      (w : C.Cluster) (m : Manifest) (cms ss : Reply (List Manifest)) (vs : List Manifest)
      → collect build_config_map (config_map_at C Q c.namespace w) (config_map_refs c) ≡ cms
      → collect build_secret (secret_at C Q c.namespace w) (secret_refs c) ≡ ss
      → after_config_maps C Q c cms ss ≡ done vs
      → Any (λ x. x ≡ m) vs ↔ (
          CarriesObject of_config_map build_config_map (config_map_at C Q c.namespace w) m
          ⊎ CarriesObject of_secret build_secret (secret_at C Q c.namespace w) m)
  volumes-carried_iff w m (failed e) ss vs p q h = ground arith
  volumes-carried_iff w m (done cms) (failed e) vs p q h = ground arith
  volumes-carried_iff w m (done cms) (done ss) vs p q h =
      let both =
        append_iff _ cms ss
          (objects-carried_iff of_config_map _ _ m _ cms (config_map_refs_iff c) p)
          (objects-carried_iff of_secret _ _ m _ ss (secret_refs_iff c) q) in
      let e : vs ≡ cms ++ ss = cc in rw e both

  auth-carried_iff :
      (w : C.Cluster) (m : Manifest) (r : Reply (List RoleBinding)) (ms : List Manifest)
      → (C.list_role_bindings c.namespace w).0 ≡ r
      → auth_of C Q c r ≡ done ms
      → Any (λ x. x ≡ m) ms ↔ ((items : List RoleBinding) × (r ≡ done items) × CarriesAuth items m)
  auth-carried_iff w m (failed e) ms h g = ground arith
  auth-carried_iff w m (done items) ms h g = ground arith

  assembled-IsCarried_iff :
      (w : C.Cluster) (m : Manifest) (vs rs : Reply (List Manifest)) (ms : List Manifest)
      → volumes_of C Q c w ≡ vs
      → auth_of C Q c (C.list_role_bindings c.namespace w).0 ≡ rs
      → after_volumes C Q c E vs rs ≡ done ms
      → Any (λ x. x ≡ m) ms ↔ IsCarried w m
  assembled-IsCarried_iff w m (failed e) rs ms p q h = ground arith
  assembled-IsCarried_iff w m (done vs) (failed e) ms p q h = ground arith
  assembled-IsCarried_iff w m (done vs) (done rs) ms p q h =
      let v = volumes-carried_iff w m _ _ vs refl refl p in
      let a = auth-carried_iff w m _ rs refl q in
      let both = append_iff (λ x. x ≡ m) vs rs v a in
      let e : ms ≡ build_capp E c ∷ build_namespace E c.namespace ∷ (vs ++ rs) = cc in
      rw e (ground arith)

  -- On a quiet cluster, when the directors return manifests, a manifest is one of them if and only
  -- if it is the Capp's, its namespace's, the one of a ConfigMap or a Secret that can be read and
  -- that the Capp names in a container's `envFrom` or `env`, a configMap or secret source of a
  -- volume or an image pull secret, or the Role or RoleBinding for the readers of the logs, which
  -- can be listed. To be named in an init container, a projected volume, the log spec or the route
  -- does not suffice.
  pub assemble_manifests-carries_iff :
      (m : Manifest) (s : Run C.Cluster) (ms : List Manifest)
      → (assemble_manifests E C c s).0 ≡ ok ms
      → Any (λ x. x ≡ m) ms ↔ IsCarried s.cluster m
  assemble_manifests-carries_iff m s ms h =
      let made = (assemble_manifests-eq-assembled C Q c E s).0 in
      assembled-IsCarried_iff s.cluster m _ _ ms refl refl (outcome_of-done _ ms (sym made ∙ h))
