-- ===== src/Sync/Directors/Volumes/Fetch.antt =====
-- The fetch loops of internal/sync/directors/volumes.go on a quiet cluster.
use rcs_ocm_deployer.Common.{
  String, ◌<>◌, ◌≡◌, refl, none, some, List, [], ◌∷◌, ◌++◌, append-nil, append_assoc,
}
use rcs_ocm_deployer.Api.Work.{Manifest, ConfigMap, Secret}
use rcs_ocm_deployer.Runtime.Outcome.{Outcome, ok, errorf, error_text, Reply, done, failed}
use rcs_ocm_deployer.Runtime.Client.{Client}
use rcs_ocm_deployer.Runtime.Quiet.{IsQuiet}
use rcs_ocm_deployer.Runtime.Action.{Action, Run, pure, ◌>>=◌}
use rcs_ocm_deployer.Runtime.Calls.{query}
use rcs_ocm_deployer.Sync.Builders.{build_config_map, build_secret}
use rcs_ocm_deployer.Sync.Directors.Volumes.{
  Partial, config_map_loop, create_config_map_manifests, secret_loop, create_secret_manifests,
}

module _ {A : Type 0} (build : A → Manifest) where
  abbrev put_first : A → Reply (List Manifest) → Reply (List Manifest)
  put_first x (failed e) = failed e
  put_first x (done ms) = done (build x ∷ ms)

  -- A manifest for every name, in the order of the names; or the first error.
  abbrev pub collect : (String → Reply A) → List String → Reply (List Manifest)
  collect get [] = done []
  collect get (n ∷ names) =
      let rest = collect get names in
      elim (get n) [ failed e ↦ failed e | done x ↦ put_first x rest ]

module _ {W : Type 0} (text : String) where
  abbrev pub IsLoopResult :
      Reply (List Manifest) → List Manifest → Run W → Outcome Partial × Run W → Type 0
  IsLoopResult (done ms) acc s r = r ≡ (ok (record { manifests = acc ++ ms; error = none }), s)
  IsLoopResult (failed e) acc s r =
      (part : List Manifest) × (r
        ≡ (ok (record { manifests = part; error = some (errorf (text <> error_text e)) }), s))

  IsLoopResult-put_first :
      {A : Type 0} (build : A → Manifest) (x : A) (r : Reply (List Manifest)) (acc : List Manifest)
      (s : Run W) (o : Outcome Partial × Run W)
      → IsLoopResult r (acc ++ build x ∷ []) s o
      → IsLoopResult (put_first build x r) acc s o
  IsLoopResult-put_first build x (failed e) acc s o h = h
  IsLoopResult-put_first build x (done ms) acc s o h = rw append_assoc at h

  -- one round of a fetch loop
  abbrev pub round :
      {A : Type 0}
      → (A → Manifest)
      → (W → Reply A × W)
      → (List Manifest → Action W Partial)
      → List Manifest
      → Action W Partial
  round build get more acc = do
    got ← query get
    elim got [
      | failed e ↦ pure (record { manifests = acc; error = some (errorf (text <> error_text e)) })
      | done x ↦ more (acc ++ build x ∷ [])
    ]

  module _ {A : Type 0} (build : A → Manifest) (get : String → W → Reply A × W)
      (quiet : (n : String) (w : W) → (get n w).1 ≡ w)
      (loop : List String → List Manifest → Action W Partial)
      (loop_nil : (acc : List Manifest) (s : Run W)
        → loop [] acc s ≡ (ok (record { manifests = acc; error = none }), s))
      (loop_cons : (n : String) (names : List String) (acc : List Manifest) (s : Run W)
        → loop (n ∷ names) acc s ≡ round build (get n) (loop names) acc s) where
    round-collect :
        (n : String) (rest : Reply (List Manifest)) (more : List Manifest → Action W Partial)
        (acc : List Manifest) (s : Run W)
        → ((acc : List Manifest) → IsLoopResult rest acc s (more acc s))
        → (r : Reply A) → (get n s.cluster).0 ≡ r
        → IsLoopResult
            (elim r [ failed e ↦ failed e | done x ↦ put_first build x rest ])
            acc
            s
            (round build (get n) more acc s)
    round-collect n rest more acc s ih (failed e) h = (acc, rw (h, quiet n s.cluster))
    round-collect n rest more acc s ih (done x) h =
        IsLoopResult-put_first build x rest acc s _ (rw (h, quiet n s.cluster) (ih _))

    loop-collect :
        (names : List String) (acc : List Manifest) (s : Run W)
        → IsLoopResult (collect build (λ n. (get n s.cluster).0) names) acc s (loop names acc s)
    loop-collect [] acc s = rw (loop_nil, append-nil)
    loop-collect (n ∷ names) acc s = rw loop_cons (
        round-collect n (collect build (λ n. (get n s.cluster).0) names) (loop names) acc s
          (λ acc. loop-collect names acc s) (get n s.cluster).0 refl)

module _ (C : Client) (Q : IsQuiet C) (ns : String) where
  abbrev pub config_map_at : C.Cluster → String → Reply ConfigMap
  config_map_at w n = (C.get_config_map (record { name = n; namespace = ns }) w).0

  abbrev pub secret_at : C.Cluster → String → Reply Secret
  secret_at w n = (C.get_secret (record { name = n; namespace = ns }) w).0

  pub config_maps-collect :
      (names : List String) (s : Run C.Cluster)
      → IsLoopResult "unable to fetch ConfigMap from Capp spec: "
          (collect build_config_map (config_map_at s.cluster) names)
          []
          s
          (create_config_map_manifests C names ns s)
  unfolding create_config_map_manifests
  config_maps-collect names s =
      loop-collect "unable to fetch ConfigMap from Capp spec: " build_config_map
        (λ n. C.get_config_map (record { name = n; namespace = ns }))
        (λ n. Q.config_map (record { name = n; namespace = ns }))
        (λ names acc. config_map_loop C names ns acc) (λ acc s. refl) (λ n names acc s. refl) names
        [] s

  pub secrets-collect :
      (names : List String) (s : Run C.Cluster)
      → IsLoopResult "unable to fetch Secret from Capp spec: "
          (collect build_secret (secret_at s.cluster) names)
          []
          s
          (create_secret_manifests C names ns s)
  unfolding create_secret_manifests
  secrets-collect names s =
      loop-collect "unable to fetch Secret from Capp spec: " build_secret
        (λ n. C.get_secret (record { name = n; namespace = ns }))
        (λ n. Q.secret (record { name = n; namespace = ns }))
        (λ names acc. secret_loop C names ns acc) (λ acc s. refl) (λ n names acc s. refl) names [] s
