-- ===== src/Placement/Adapters/Decision.antt =====
-- Which cluster `GetDecisionClusterName` chooses.
use Prim.Native.String.{String}
use rcs_ocm_deployer.Common.{
  ◌≡◌, ◌≢◌, ◌↔◌, refl, ap, List, [], ◌∷◌, ◌++◌, All, arith, eq_iff, ◌==◌, Bool-cases, inl, inr,
}
use rcs_ocm_deployer.Api.Work.{PlacementDecision}
use rcs_ocm_deployer.Placement.Adapters.{
  local_cluster, first_remote, decided_cluster, get_decision_cluster_name,
}

-- The only decision; or the first of several that is not the local cluster.
pub data Chosen (decisions : List String) (cluster : String) : Type 0 where
  alone : decisions ≡ cluster ∷ [] → Chosen decisions cluster
  remote :
      (skipped rest : List String)
      → decisions ≡ skipped ++ cluster ∷ rest
      → All (λ c. c ≡ local_cluster) skipped
      → cluster ≢ local_cluster
      → Chosen decisions cluster

-- The search finds the first decision that is not the local cluster.
first_remote_sound :
    (decisions : List String) (cluster : String)
    → first_remote decisions ≡ cluster
    → cluster ≢ ""
    → (skipped : List String) × (rest : List String) × (decisions ≡ skipped ++ cluster ∷ rest)
      × All (λ c. c ≡ local_cluster) skipped
      × (cluster ≢ local_cluster)
unfolding first_remote
first_remote_sound [] cluster e ne = absurd (ground arith)
first_remote_sound (c ∷ decisions) cluster e ne = elim (Bool-cases (c == local_cluster)) [
  | inl same ↦
      let (skipped, rest, split, local, far) =
        first_remote_sound decisions cluster (ground arith) ne in
      (
        c ∷ skipped,
        rest,
        ap (λ (l : List String). c ∷ l) split,
        ((eq_iff c local_cluster).0 same, local),
        far,
      )
  | inr other ↦ ([], decisions, ground arith, tt, ground (arith, eq_iff c local_cluster))
]

first_remote_complete :
    (skipped rest : List String) (cluster : String)
    → All (λ c. c ≡ local_cluster) skipped
    → cluster ≢ local_cluster
    → first_remote (skipped ++ cluster ∷ rest) ≡ cluster
unfolding first_remote
first_remote_complete [] rest cluster local far = ground (arith, eq_iff cluster local_cluster)
first_remote_complete (c ∷ skipped) rest cluster (same, local) far =
    ground (arith, eq_iff c local_cluster, first_remote_complete skipped rest cluster local far)

local_ne_empty : local_cluster ≢ ""
local_ne_empty = ground (arith, eq_iff local_cluster "")

head_eq {ℓ} : {A : Type ℓ} {x y : A} {xs ys : List A} → x ∷ xs ≡ y ∷ ys → x ≡ y
head_eq e = cc

decided_sound :
    (decisions : List String) (cluster : String)
    → decided_cluster decisions ≡ cluster
    → cluster ≢ ""
    → Chosen decisions cluster
unfolding decided_cluster
decided_sound [] cluster e ne = absurd (ground arith)
decided_sound (c ∷ []) cluster e ne = Chosen.alone (ground (arith, eq_iff c ""))
decided_sound (c ∷ d ∷ decisions) cluster e ne =
    let (skipped, rest, split, local, far) = first_remote_sound (c ∷ d ∷ decisions) cluster e ne in
    Chosen.remote skipped rest split local far

decided_remote :
    (skipped rest : List String) (cluster : String)
    → All (λ c. c ≡ local_cluster) skipped
    → cluster ≢ local_cluster
    → decided_cluster (skipped ++ cluster ∷ rest) ≡ cluster
unfolding decided_cluster
decided_remote [] [] cluster local far = ground (arith, eq_iff cluster "")
decided_remote [] (d ∷ rest) cluster local far =
    first_remote_complete [] (d ∷ rest) cluster local far
decided_remote (c ∷ []) rest cluster local far =
    first_remote_complete (c ∷ []) rest cluster local far
decided_remote (c ∷ d ∷ skipped) rest cluster local far =
    first_remote_complete (c ∷ d ∷ skipped) rest cluster local far

decided_complete :
    (decisions : List String) (cluster : String)
    → Chosen decisions cluster
    → decided_cluster decisions ≡ cluster
unfolding decided_cluster
decided_complete decisions cluster (Chosen.alone e) = rw e (ground (arith, eq_iff cluster ""))
decided_complete decisions cluster (Chosen.remote skipped rest e local far) =
    rw e (decided_remote skipped rest cluster local far)

-- A cluster with a name is returned exactly when it is chosen among the decisions of the first
-- PlacementDecision of the list.
pub get_decision_cluster_name_iff :
    (items : List PlacementDecision) (cluster : String)
    → cluster ≢ ""
    → (get_decision_cluster_name items ≡ cluster) ↔ (
        (pd : PlacementDecision) × (rest : List PlacementDecision) × (items ≡ pd ∷ rest)
        × Chosen pd.decisions cluster)
unfolding get_decision_cluster_name
get_decision_cluster_name_iff [] cluster ne = (λ e. absurd (ground arith), λ (pd, rest, e, h). cc)
get_decision_cluster_name_iff (pd ∷ items) cluster ne = (
  λ e. (pd, items, refl, decided_sound pd.decisions cluster e ne),
  λ (pd', rest, e, h). decided_complete pd.decisions cluster (rw (head_eq e) h),
)

only_local :
    (decisions : List String) → Chosen decisions local_cluster → decisions ≡ local_cluster ∷ []
only_local decisions (Chosen.alone e) = e
only_local decisions (Chosen.remote skipped rest e local far) = absurd (far refl)

-- The local cluster is returned exactly when it is the only decision of the first
-- PlacementDecision.
get_decision_cluster_name_local_iff :
    (items : List PlacementDecision)
    → (get_decision_cluster_name items ≡ local_cluster) ↔ (
        (pd : PlacementDecision) × (rest : List PlacementDecision) × (items ≡ pd ∷ rest)
        × (pd.decisions ≡ local_cluster ∷ []))
get_decision_cluster_name_local_iff items =
    let (to, from) = get_decision_cluster_name_iff items local_cluster local_ne_empty in
    (
      λ e. let (pd, rest, split, h) = to e in (pd, rest, split, only_local pd.decisions h),
      λ (pd, rest, split, e). from (pd, rest, split, Chosen.alone e),
    )
