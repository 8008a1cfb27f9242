-- ===== src/Webhooks/Domain/Accepted.antt =====
-- When a hostname is accepted.
use rcs_ocm_deployer.Common.{
  String, ◌<>◌, ◌≡◌, ◌≢◌, ◌↔◌, ◌⊎◌, inl, inr, refl, Bool, true, false, Option, none, some, List, [],
  ◌∷◌, All, arith, eq_iff, ◌==◌, Bool-cases,
}
use rcs_ocm_deployer.Common.Texts.{has_suffix}
use rcs_ocm_deployer.Runtime.Outcome.{Outcome, ok, err, panic}
use rcs_ocm_deployer.Runtime.Client.{Externals}
use rcs_ocm_deployer.Webhooks.Admission.{FieldErrors, HostChecks, dns_error}
use rcs_ocm_deployer.Webhooks.Domain.{
  is_domain_name_taken, ◌>>=◌, add_not_qualified, add_pattern, add_patterns, add_cluster_local,
  add_taken, validate_domain_name,
}

-- Adding an error to a collection, nil or not, gives a collection that is not nil.
pub record IsCollecting (F : FieldErrors) : Type 0 where
  pub also-ne-none :
      (errs : Option F.FieldError) (message : String) (paths : List String)
      → F.also errs (F.err_generic message paths) ≢ none

module _ (H : HostChecks) (domain : String) where
  -- The empty pattern, or one that compiles and does not match.
  abbrev pub Misses : String → Type 0
  Misses p =
      (p ≡ "")
      ⊎ ((matches : String → Bool) × (H.compile p ≡ some matches) × (matches domain ≡ false))

  -- A qualified name that matches no pattern, is not of the cluster's domain and does not resolve.
  abbrev pub IsFree : List String → Type 0
  IsFree patterns =
      (H.not_qualified domain ≡ none)
      × All Misses patterns
      × (has_suffix domain ("." <> H.cluster_domain) ≡ false)
      × ((message : String) × (H.lookup_host domain ≡ dns_error true message))

-- An outcome without an error, step by step.
>>=-eq-ok :
    {A B : Type 0} (r : Outcome A) (f : A → Outcome B) (b : B)
    → (r >>= f) ≡ ok b
    → (a : A) × (r ≡ ok a) × (f a ≡ ok b)
>>=-eq-ok (ok a) f b h = (a, refl, h)
>>=-eq-ok (err e) f b h = cc
>>=-eq-ok panic f b h = cc

module _ (E : Externals) (F : FieldErrors) (L : IsCollecting F) (H : HostChecks)
    (domain : String) where
  add_pattern-none :
      (p : String) (errs : Option F.FieldError)
      → (add_pattern E F H domain p errs ≡ ok none) ↔ ((errs ≡ none) × Misses H domain p)
  unfolding add_pattern
  add_pattern-none p errs = ground (
    arith,
    eq_iff p "",
    L.also-ne-none errs
        ("invalid name " <> (E.quote domain <> (": must not match pattern " <> E.quote p)))
        ("name" ∷ []),
  )

  add_patterns-none :
      (patterns : List String) (errs : Option F.FieldError)
      → (add_patterns E F H domain patterns errs ≡ ok none)
        ↔ ((errs ≡ none) × All (Misses H domain) patterns)
  unfolding add_patterns
  add_patterns-none [] errs = ground arith
  add_patterns-none (p ∷ patterns) errs = (
    λ h.
        let (e, one, rest) = >>=-eq-ok (add_pattern E F H domain p errs) _ none h in
        let (e_none, more) = (add_patterns-none patterns e).0 rest in
        let (errs_none, misses) = (add_pattern-none p errs).0 (rw one (rw e_none)) in
        (errs_none, (misses, more)),
    λ (errs_none, (misses, more)).
        rw ((add_pattern-none p errs).1 (errs_none, misses))
          ((add_patterns-none patterns none).1 (refl, more)),
  )

  add_not_qualified-none :
      (add_not_qualified E F H domain none ≡ none) ↔ (H.not_qualified domain ≡ none)
  unfolding add_not_qualified
  add_not_qualified-none = grind (arith, L.also-ne-none)

  add_cluster_local-none :
      (errs : Option F.FieldError)
      → (add_cluster_local E F H domain errs ≡ none)
        ↔ ((errs ≡ none) × (has_suffix domain ("." <> H.cluster_domain) ≡ false))
  unfolding add_cluster_local
  add_cluster_local-none errs = grind (arith, L.also-ne-none)

  taken-none :
      (errs : Option F.FieldError)
      → ((is_domain_name_taken (H.lookup_host domain) >>= λ t. ok (add_taken E F H domain t errs))
          ≡ ok none)
        ↔ ((errs ≡ none) × ((message : String) × (H.lookup_host domain ≡ dns_error true message)))
  unfolding is_domain_name_taken add_taken
  taken-none errs = grind (arith, L.also-ne-none)

  validate-empty :
      (patterns : List String)
      → (domain == "") ≡ true
      → validate_domain_name E F H domain patterns ≡ ok none
  unfolding validate_domain_name
  validate-empty patterns e = rw e

  not_empty : {P : Type 0} → (domain == "") ≡ false → (domain ≡ "") ⊎ P → P
  not_empty ne (inl e) = absurd (ground (arith, eq_iff domain ""))
  not_empty ne (inr h) = h

  validate-qualified :
      (patterns : List String)
      → (domain == "") ≡ false
      → (validate_domain_name E F H domain patterns ≡ ok none) ↔ IsFree H domain patterns
  unfolding validate_domain_name
  validate-qualified patterns ne = (
    λ h.
        let (e, loop, rest) =
          >>=-eq-ok (add_patterns E F H domain patterns _) _ none (rw ne at h) in
        let (local_none, free) = (taken-none (add_cluster_local E F H domain e)).0 rest in
        let (e_none, foreign) = (add_cluster_local-none e).0 local_none in
        let (start, misses) = (add_patterns-none patterns _).0 (rw loop (rw e_none)) in
        (add_not_qualified-none.0 start, misses, foreign, free),
    λ (qualified, misses, foreign, free).
        rw (ne, (add_patterns-none patterns _).1 (add_not_qualified-none.1 qualified, misses))
          ((taken-none _).1 ((add_cluster_local-none none).1 (refl, foreign), free)),
  )

  -- A hostname passes without errors exactly when it is empty, or it is a qualified name, every
  -- pattern is empty or compiles and does not match it, it is not in the cluster's own domain, and
  -- looking it up answers that there is no such host.
  pub validate_domain_name-none_iff :
      (patterns : List String)
      → (validate_domain_name E F H domain patterns ≡ ok none)
        ↔ ((domain ≡ "") ⊎ IsFree H domain patterns)
  validate_domain_name-none_iff patterns = elim (Bool-cases (domain == "")) [
    | inl empty ↦ (λ _. inl ((eq_iff domain "").0 empty), λ _. validate-empty patterns empty)
    | inr ne ↦ (
      λ h. inr ((validate-qualified patterns ne).0 h),
      λ h. (validate-qualified patterns ne).1 (not_empty ne h),
    )
  ]
