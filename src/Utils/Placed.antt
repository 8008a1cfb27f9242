-- ===== src/Utils/Placed.antt =====
-- When a Capp counts as placed.
use rcs_ocm_deployer.Common.{
  String, ◌≡◌, refl, ◌≢◌, ◌↔◌, true, Option, none, some, [], ◌∷◌, arith, eq_iff,
}
use rcs_ocm_deployer.Common.Dict.{Dict, lookup_nil, lookup}
use rcs_ocm_deployer.Api.Workload.{Capp}
use rcs_ocm_deployer.Utils.{non_empty, placed_by, has_placement_key, contains_placement_annotation}

named : (o : Option String) → (non_empty o ≡ true) ↔ ((v : String) × (o ≡ some v) × (v ≢ ""))
named none = (λ e. cc, λ (v, e, h). cc)
named (some v) =
    (λ e. (v, refl, ground (arith, eq_iff v "")), λ (x, e, h). ground (arith, eq_iff v "", h))

placed_by_iff :
    (m : Option (Dict String))
    → (placed_by m ≡ true) ↔ ((v : String) × (lookup_nil has_placement_key m ≡ some v) × (v ≢ ""))
unfolding placed_by lookup
placed_by_iff none = (λ e. cc, λ (v, e, h). cc)
placed_by_iff (some []) = (λ e. cc, λ (v, e, h). cc)
placed_by_iff (some (b ∷ m)) = named _

-- A Capp counts as placed exactly when its annotation is there and is not empty.
pub contains_placement_annotation_iff :
    (c : Capp)
    → (contains_placement_annotation c ≡ true)
      ↔ ((v : String) × (lookup_nil has_placement_key c.annotations ≡ some v) × (v ≢ ""))
unfolding contains_placement_annotation
contains_placement_annotation_iff c = placed_by_iff c.annotations
