-- ===== src/Webhooks/Common/Sites.antt =====
-- When the site of a Capp is accepted.
use rcs_ocm_deployer.Common.{
  String, ◌≡◌, ◌∙◌, ◌↔◌, ◌⊎◌, true, List, [], ◌∷◌, ◌++◌, append-nil, append_assoc, contains, arith,
  eq_iff,
}
use rcs_ocm_deployer.Api.Workload.{Capp}
use rcs_ocm_deployer.Runtime.Outcome.{ok, done}
use rcs_ocm_deployer.Runtime.Client.{Client}
use rcs_ocm_deployer.Runtime.Action.{Run}
use rcs_ocm_deployer.Webhooks.Common.{cluster_names_loop, is_site_valid}

cluster_names_loop-eq :
    (items names : List String) → cluster_names_loop items names ≡ names ++ items
unfolding cluster_names_loop
cluster_names_loop-eq [] names = rw append-nil
cluster_names_loop-eq (x ∷ items) names =
    cluster_names_loop-eq items _ ∙ append_assoc names (x ∷ []) items

-- The site is empty, a placement, or a managed cluster in a list that the server gave.
abbrev pub IsSite : (C : Client) → C.Cluster → List String → String → Type 0
IsSite C w placements site =
    (site ≡ "")
    ⊎ ((contains placements site ≡ true)
        ⊎ ((clusters : List String) × ((C.list_managed_clusters w).0 ≡ done clusters)
            × (contains clusters site ≡ true)))

-- A site passes exactly when it is empty, or a placement of the RCSConfig, or a managed cluster
-- in a list that the server gave; if the clusters cannot be listed, placements still pass.
pub is_site_valid-true_iff :
    (C : Client) (c : Capp) (placements : List String) (s : Run C.Cluster)
    → ((is_site_valid C c placements s).0 ≡ ok true) ↔ IsSite C s.cluster placements c.spec.site
unfolding is_site_valid
is_site_valid-true_iff C c placements s =
    grind (arith, eq_iff c.spec.site "", cluster_names_loop-eq)
