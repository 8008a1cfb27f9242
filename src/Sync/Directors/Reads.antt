-- ===== src/Sync/Directors/Reads.antt =====
-- internal/sync/directors: what collecting the manifests leaves as it is, and what it adds up, for
-- every client.
use rcs_ocm_deployer.Common.{
  ℕ, suc, ◌+◌, ◌≤◌, arith, length, String, ◌≡◌, refl, Option, none, some, List, [], ◌∷◌, ◌++◌,
}
use rcs_ocm_deployer.Api.Meta.{NamespacedName}
use rcs_ocm_deployer.Api.Workload.{Capp}
use rcs_ocm_deployer.Api.Work.{Manifest, RoleBinding}
use rcs_ocm_deployer.Runtime.Client.{Client, Externals}
use rcs_ocm_deployer.Runtime.Action.{
  Run, Event, Action, pure, raise, continue, caught, attempt, warning, ◌>>=◌, ◌>>◌,
}
use rcs_ocm_deployer.Runtime.Calls.{record_event}
use rcs_ocm_deployer.Runtime.Outcome.{
  Outcome, ok, err, panic, Error, error_text, Reply, done, failed,
}
use rcs_ocm_deployer.Utils.{event_volume_not_found, event_auth_failed}
use rcs_ocm_deployer.Sync.Builders.{build_capp, build_namespace, build_config_map, build_secret}
use rcs_ocm_deployer.Sync.Directors.Volumes.Fetch.{round}
use rcs_ocm_deployer.Sync.Directors.{assemble_manifests}
use rcs_ocm_deployer.Sync.Directors.Auth
use rcs_ocm_deployer.Sync.Directors.Volumes
use rcs_ocm_deployer.Sync.Directors.Volumes.{
  Partial, config_map_loop, create_config_map_manifests, secret_loop, create_secret_manifests,
  get_resource_volumes,
}

-- A family of predicates on runs: each of the three reads of the directors takes one to the next,
-- and the events keep it. A predicate that the reads keep is a family that does not change.
pub record IsKept (C : Client) (P : ℕ → Run C.Cluster → Type 0) : Type 0 where
  pub config_map :
      {n : ℕ} (k : NamespacedName) (s : Run C.Cluster)
      → P n s
      → P (suc n) (record s { cluster = (C.get_config_map k s.cluster).1 })
  pub secret :
      {n : ℕ} (k : NamespacedName) (s : Run C.Cluster)
      → P n s
      → P (suc n) (record s { cluster = (C.get_secret k s.cluster).1 })
  pub role_bindings :
      {n : ℕ} (ns : String) (s : Run C.Cluster)
      → P n s
      → P (suc n) (record s { cluster = (C.list_role_bindings ns s.cluster).1 })
  pub events :
      {n : ℕ} (events : List Event) (s : Run C.Cluster) → P n s → P n (record s { events = events })
  pub more : {n m : ℕ} (s : Run C.Cluster) → P n s → n ≤ m → P m s

-- the names of the ConfigMaps and of the Secrets that are collected from the Capp
abbrev pub config_map_names : Capp → List String
config_map_names c = (get_resource_volumes c).config_maps

abbrev pub secret_names : Capp → List String
secret_names c = (get_resource_volumes c).secrets

-- the number of reads that collecting the manifests is allowed
abbrev pub reads_of : Capp → ℕ
reads_of c = length (config_map_names c) + (length (secret_names c) + 1)

module _ (C : Client) (P : ℕ → Run C.Cluster → Type 0) (K : IsKept C P) where
  -- the rest behind a call
  behind :
      {A B : Type 0} {n m : ℕ} (r : Outcome A × Run C.Cluster) (f : A → Action C.Cluster B)
      → n ≤ m
      → P n r.1
      → ((a : A) (s : Run C.Cluster) → P n s → P m (f a s).1)
      → P m (continue r f).1
  behind (ok a, s) f le p k = k a s p
  behind (err e, s) f le p k = K.more s p le
  behind (panic, s) f le p k = K.more s p le

  -- `attempt`, and what comes behind it
  tried :
      {A B : Type 0} {n m : ℕ} (r : Outcome A × Run C.Cluster) (f : Reply A → Action C.Cluster B)
      → n ≤ m
      → P n r.1
      → ((t : Reply A) (s : Run C.Cluster) → P n s → P m (f t s).1)
      → P m (continue (caught r) f).1
  tried (ok a, s) f le p k = k (done a) s p
  tried (err e, s) f le p k = k (failed e) s p
  tried (panic, s) f le p k = K.more s p le

  round-keeps :
      {A : Type 0} {n : ℕ} (m : ℕ) (text : String) (build : A → Manifest)
      (get : C.Cluster → Reply A × C.Cluster) (more : List Manifest → Action C.Cluster Partial)
      (acc : List Manifest) (s : Run C.Cluster)
      → P (suc n) (record s { cluster = (get s.cluster).1 })
      → ((acc : List Manifest) (s : Run C.Cluster) → P (suc n) s → P (suc n + m) (more acc s).1)
      → (r : Reply A) → (get s.cluster).0 ≡ r
      → P (n + suc m) (round text build get more acc s).1
  round-keeps m text build get more acc s p ih (failed e) h = rw h (K.more _ p (omega arith))
  round-keeps m text build get more acc s p ih (done x) h = rw h (K.more _ (ih _ _ p) (omega arith))

  config_map_loop-keeps :
      {n : ℕ} (names : List String) (ns : String) (acc : List Manifest) (s : Run C.Cluster)
      → P n s
      → P (n + length names) (config_map_loop C names ns acc s).1
  unfolding config_map_loop
  config_map_loop-keeps [] ns acc s p = K.more s p (omega arith)
  config_map_loop-keeps (n ∷ names) ns acc s p =
      round-keeps (length names) "unable to fetch ConfigMap from Capp spec: " build_config_map
        (C.get_config_map (record { name = n; namespace = ns })) (config_map_loop C names ns) acc s
        (K.config_map _ s p) (config_map_loop-keeps names ns) _ refl

  secret_loop-keeps :
      {n : ℕ} (names : List String) (ns : String) (acc : List Manifest) (s : Run C.Cluster)
      → P n s
      → P (n + length names) (secret_loop C names ns acc s).1
  unfolding secret_loop
  secret_loop-keeps [] ns acc s p = K.more s p (omega arith)
  secret_loop-keeps (n ∷ names) ns acc s p =
      round-keeps (length names) "unable to fetch Secret from Capp spec: " build_secret
        (C.get_secret (record { name = n; namespace = ns })) (secret_loop C names ns) acc s
        (K.secret _ s p) (secret_loop-keeps names ns) _ refl

  config_maps-keeps :
      {n : ℕ} (names : List String) (ns : String) (s : Run C.Cluster)
      → P n s
      → P (n + length names) (create_config_map_manifests C names ns s).1
  unfolding create_config_map_manifests
  config_maps-keeps names ns s p = config_map_loop-keeps names ns [] s p

  secrets-keeps :
      {n : ℕ} (names : List String) (ns : String) (s : Run C.Cluster)
      → P n s
      → P (n + length names) (create_secret_manifests C names ns s).1
  unfolding create_secret_manifests
  secrets-keeps names ns s p = secret_loop-keeps names ns [] s p

  -- the Secrets behind the ConfigMaps, and the end
  end_of_volumes :
      {n : ℕ} (cms secrets : Partial) (o : Option Error) (s : Run C.Cluster)
      → P n s
      → P n
          ((elim o as (λ o. Action C.Cluster (List Manifest)) [
            | none ↦ pure (cms.manifests ++ secrets.manifests)
            | some e ↦ raise e
          ])
            s).1
  end_of_volumes cms secrets none s p = p
  end_of_volumes cms secrets (some e) s p = p

  secrets_behind :
      {n : ℕ} (c : Capp) (cms : Partial) (o : Option Error) (s : Run C.Cluster)
      → P n s
      → P
          (n + length (secret_names c))
          ((elim o as (λ o. Action C.Cluster (List Manifest)) [
            | none ↦ do
              secrets ← create_secret_manifests C (get_resource_volumes c).secrets c.namespace
              elim secrets.error [
                | none ↦ pure (cms.manifests ++ secrets.manifests)
                | some e ↦ raise e
              ]
            | some e ↦ raise e
          ])
            s).1
  secrets_behind {n} c cms none s p =
      let names = secret_names c in
      behind {n = n + length names} (create_secret_manifests C names c.namespace s) _ (omega arith)
        (secrets-keeps names c.namespace s p)
        (λ secrets s'. end_of_volumes cms secrets secrets.error s')
  secrets_behind c cms (some e) s p = K.more s p (omega arith)

  volumes-keeps :
      {n : ℕ} (c : Capp) (s : Run C.Cluster)
      → P n s
      → P
          (n + length (config_map_names c) + length (secret_names c))
          (Volumes.assemble_manifests C c s).1
  unfolding Volumes.assemble_manifests
  volumes-keeps {n} c s p =
      let names = config_map_names c in
      behind {n = n + length names} (create_config_map_manifests C names c.namespace s) _
        (omega arith) (config_maps-keeps names c.namespace s p)
        (λ cms s'. secrets_behind c cms cms.error s')

  users-keeps :
      {n : ℕ} (c : Capp) (s : Run C.Cluster) (r : Reply (List RoleBinding))
      → (C.list_role_bindings c.namespace s.cluster).0 ≡ r
      → P n s
      → P (suc n) (Auth.get_users_from_namespace C c s).1
  unfolding Auth.get_users_from_namespace
  users-keeps c s (failed e) h p = rw h (K.role_bindings _ s p)
  users-keeps c s (done items) h p = rw h (K.role_bindings _ s p)

  auth-keeps :
      {n : ℕ} (c : Capp) (s : Run C.Cluster) → P n s → P (suc n) (Auth.assemble_manifests C c s).1
  unfolding Auth.assemble_manifests
  auth-keeps {n} c s p =
      behind {n = suc n} (Auth.get_users_from_namespace C c s) _ (omega arith)
        (users-keeps c s _ refl p) (λ users s₁ q. q)

  module _ (E : Externals) (c : Capp) where
    behind_auth :
        {n : ℕ} (vs : List Manifest) (t : Reply (List Manifest)) (s : Run C.Cluster)
        → P n s
        → P n
            ((elim t as (λ t. Action C.Cluster (List Manifest)) [
              | failed e ↦ do record_event warning event_auth_failed (error_text e); raise e
              | done ms ↦ pure ((build_capp E c ∷ build_namespace E c.namespace ∷ []) ++ (vs ++ ms))
            ])
              s).1
    behind_auth vs (failed e) s p = K.events _ s p
    behind_auth vs (done ms) s p = p

    behind_volumes :
        {n : ℕ} (t : Reply (List Manifest)) (s : Run C.Cluster)
        → P n s
        → P
            (suc n)
            ((elim t as (λ t. Action C.Cluster (List Manifest)) [
              | failed e ↦ do record_event warning event_volume_not_found (error_text e); raise e
              | done vs ↦ do
                auth ← attempt (Auth.assemble_manifests C c)
                elim auth [
                  | failed e ↦ do record_event warning event_auth_failed (error_text e); raise e
                  | done ms ↦
                      pure ((build_capp E c ∷ build_namespace E c.namespace ∷ []) ++ (vs ++ ms))
                ]
            ])
              s).1
    behind_volumes (failed e) s p = K.more _ (K.events _ s p) (omega arith)
    behind_volumes {n} (done vs) s p =
        tried {n = suc n} (Auth.assemble_manifests C c s) _ (omega arith) (auth-keeps c s p)
          (behind_auth vs)

    -- Collecting the manifests keeps every predicate that the reads and the events keep, and adds
    -- up what each read adds.
    pub assemble_manifests-keeps :
        {n : ℕ} (s : Run C.Cluster) → P n s → P (n + reads_of c) (assemble_manifests E C c s).1
    unfolding assemble_manifests
    assemble_manifests-keeps {n} s p =
        let k = n + length (config_map_names c) + length (secret_names c) in
        K.more _
          (tried {n = k} {m = suc k} (Volumes.assemble_manifests C c s) _ (omega arith)
            (volumes-keeps c s p) behind_volumes)
          (omega arith)

-- Whatever the client answers and however it ends, collecting the manifests of a Capp writes
-- nothing to the cluster.
pub writes-assemble_manifests :
    (C : Client) (E : Externals) (c : Capp) (s : Run C.Cluster)
    → (assemble_manifests E C c s).1.writes ≡ s.writes
writes-assemble_manifests C E c s =
    assemble_manifests-keeps C (λ n t. t.writes ≡ s.writes)
      (record {
        config_map = λ k t p. p;
        secret = λ k t p. p;
        role_bindings = λ ns t p. p;
        events = λ es t p. p;
        more = λ t p le. p;
      })
      E c {n = 0} s refl
