-- ===== src/Webhooks/Mutator/Users.antt =====
-- Whose updates leave the annotation `last-updated-by` as it is: `isExcludedServiceAccount`.
use rcs_ocm_deployer.Common.{
  nat_eq, String, ◌<>◌, ◌≡◌, ◌↔◌, refl, ap, sym, ◌∙◌, true, ◌&&◌, List, [], ◌∷◌, arith, eq_iff,
  length,
}
use rcs_ocm_deployer.Common.Texts.{split_colon, join}
use rcs_ocm_deployer.Common.Texts.Split.{
  no_colon, all_no_colon, split_colon-no_colon, join-split_colon, split-free, split-append,
}
use rcs_ocm_deployer.Webhooks.Mutator.{
  excluded_namespace, part_is_excluded, is_excluded_service_account,
}

shape :
    (parts : List String)
    → (nat_eq (length parts) 4 && part_is_excluded parts) ≡ true
    → (a : String) × (b : String) × (d : String) × (parts ≡ a ∷ b ∷ excluded_namespace ∷ d ∷ [])
shape [] h = absurd (ground arith)
shape (a ∷ []) h = absurd (ground arith)
shape (a ∷ b ∷ []) h = absurd (ground arith)
shape (a ∷ b ∷ ns ∷ []) h = absurd (ground arith)
shape (a ∷ b ∷ ns ∷ d ∷ []) h = (a, b, d, grind (arith, eq_iff ns excluded_namespace))
shape (a ∷ b ∷ ns ∷ d ∷ x ∷ rest) h = absurd (ground arith)

-- the text of a name with four parts, the third the excluded one
abbrev pub IsOf : (u a b d : String) → Type 0
IsOf u a b d =
    (no_colon a ≡ true)
    × (no_colon b ≡ true)
    × (no_colon d ≡ true)
    × (u ≡ a <> (":" <> (b <> (":" <> (excluded_namespace <> (":" <> d))))))

text-IsOf : (u a b d : String) → split_colon u ≡ a ∷ b ∷ excluded_namespace ∷ d ∷ [] → IsOf u a b d
unfolding join
text-IsOf u a b d e =
    let free : all_no_colon (a ∷ b ∷ excluded_namespace ∷ d ∷ []) ≡ true =
      ap all_no_colon (sym e) ∙ split_colon-no_colon u in
    (
      ground arith,
      ground arith,
      ground arith,
      sym (join-split_colon u) ∙ ap (λ (ps : List String). join ps ":") e,
    )

parts_of : (u a b d : String) → IsOf u a b d → split_colon u ≡ a ∷ b ∷ excluded_namespace ∷ d ∷ []
parts_of u a b d (ha, hb, hd, e) =
    ap split_colon e
    ∙ split-append a _ ha
    ∙ ap (λ t. a ∷ t)
        (split-append b _ hb
          ∙ ap (λ t. b ∷ t)
              (split-append excluded_namespace d refl
                ∙ ap (λ t. excluded_namespace ∷ t) (split-free d hd)))

-- A user is excluded exactly when its name has four parts between colons, of which the third is
-- the namespace of the deployer; the other three parts may be any texts without colons.
pub is_excluded_service_account-true_iff :
    (u : String)
    → (is_excluded_service_account u ≡ true)
      ↔ ((a : String) × (b : String) × (d : String) × IsOf u a b d)
unfolding is_excluded_service_account
is_excluded_service_account-true_iff u = (
  λ h. let (a, b, d, e) = shape (split_colon u) h in (a, b, d, text-IsOf u a b d e),
  λ (a, b, d, of). let parts = parts_of u a b d of in rw parts refl,
)
