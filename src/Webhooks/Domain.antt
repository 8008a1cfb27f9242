-- ===== src/Webhooks/Domain.antt =====
-- internal/webhooks/common.go: `validateDomainName` and `isDomainNameTaken`.
pub mod Accepted
use rcs_ocm_deployer.Common.{
  String, ◌<>◌, Bool, true, false, Option, none, some, List, [], ◌∷◌, ◌==◌, if◌then◌else◌,
}
use rcs_ocm_deployer.Common.Texts.{has_suffix}
use rcs_ocm_deployer.Runtime.Outcome.{Outcome, ok, err, panic}
use rcs_ocm_deployer.Runtime.Client.{Externals}
use rcs_ocm_deployer.Webhooks.Admission.{
  FieldErrors, HostChecks, HostLookup, resolved, dns_error, lookup_error,
}

-- `isDomainNameTaken`: the two results. The type assertion on an error that is no `DNSError`
-- panics.
pub record Taken : Type 0 where
  pub taken : Bool
  pub error : Option String

unfoldable pub is_domain_name_taken : HostLookup → Outcome Taken
is_domain_name_taken resolved = ok (record { taken = true; error = none })
is_domain_name_taken (dns_error true message) = ok (record { taken = false; error = none })
is_domain_name_taken (dns_error false message) = ok (record { taken = false; error = some message })
is_domain_name_taken lookup_error = panic

infixl 10 ◌>>=◌
abbrev pub ◌>>=◌ : {A B : Type 0} → Outcome A → (A → Outcome B) → Outcome B
ok a >>= f = f a
err e >>= f = err e
panic >>= f = panic

module _ (E : Externals) (F : FieldErrors) (H : HostChecks) where
  abbrev pub Errors : Type 0
  Errors = Option F.FieldError

  abbrev invalid_name : String → String → Errors → Errors
  invalid_name domain why errs =
      F.also errs (F.err_generic ("invalid name " <> (E.quote domain <> why)) ("name" ∷ []))

  -- the test of the name's form
  unfoldable pub add_not_qualified : String → Errors → Errors
  add_not_qualified domain errs = elim (H.not_qualified domain) [
    | none ↦ errs
    | some aggregate ↦ invalid_name domain (": " <> aggregate) errs
  ]

  -- one round of the loop over `invalidPatterns`; `MustCompile` panics on a pattern that does not
  -- compile
  unfoldable pub add_pattern : String → String → Errors → Outcome Errors
  add_pattern domain pattern_text errs =
      if pattern_text == "" then ok errs else elim (H.compile pattern_text) [
        | none ↦ panic
        | some matches ↦
            if matches domain
            then ok (invalid_name domain (": must not match pattern " <> E.quote pattern_text) errs)
            else ok errs
      ]

  -- the loop over `invalidPatterns`
  unfoldable pub add_patterns : String → List String → Errors → Outcome Errors
  unfolding add_pattern
  add_patterns domain [] errs = ok errs
  add_patterns domain (pattern_text ∷ patterns) errs =
      add_pattern domain pattern_text errs >>= add_patterns domain patterns

  -- the test against the cluster's domain
  unfoldable pub add_cluster_local : String → Errors → Errors
  unfolding has_suffix
  add_cluster_local domain errs =
      if has_suffix domain ("." <> H.cluster_domain)
      then invalid_name domain
          (": must not be a subdomain of cluster local domain " <> E.quote H.cluster_domain) errs
      else errs

  abbrev add_lookup_failed : Option String → Errors → Errors
  add_lookup_failed none errs = errs
  add_lookup_failed (some message) errs =
      F.also errs (F.err_generic ("hostname check error: " <> message) [])

  -- the two tests on the results of `isDomainNameTaken`
  unfoldable pub add_taken : String → Taken → Errors → Errors
  add_taken domain t errs =
      let checked = add_lookup_failed t.error errs in
      if t.taken
      then invalid_name domain ": hostname must be unique and not already taken" checked
      else checked

  -- `validateDomainName`
  unfoldable pub validate_domain_name : String → List String → Outcome Errors
  validate_domain_name domain invalid_patterns = if domain == "" then ok none else do
    errs ← add_patterns domain invalid_patterns (add_not_qualified domain none)
    let checked = add_cluster_local domain errs
    taken ← is_domain_name_taken (H.lookup_host domain)
    ok (add_taken domain taken checked)
