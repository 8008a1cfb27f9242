-- ===== src/Webhooks/Admission.antt =====
-- Admission requests and responses, and the libraries that the webhooks call.
use rcs_ocm_deployer.Common.{ℕ, String, Bool, Option, List}
use rcs_ocm_deployer.Api.Workload.{Capp}
use rcs_ocm_deployer.Runtime.Outcome.{Error, Reply}

pub data Operation : Type 0 where
  create update other_operation : Operation

-- The decoder and `json.Marshal`, over the raw form of an object.
pub record Codec : Type 1 where
  pub Raw : Type 0
  pub decode_raw : Raw → Reply Capp
  pub marshal : Capp → Reply Raw

module _ (J : Codec) where
  -- `admission.Request`
  pub record Request : Type 0 where
    pub operation : Operation
    pub object : J.Raw
    pub old_object : J.Raw
    pub username : String

  -- `admission.Response`, by the function of the library that made it
  pub data Response : Type 0 where
    allowed : String → Response
    denied : String → Response
    errored : ℕ → Error → Response
    patch_response_from_raw : J.Raw → J.Raw → Response

abbrev pub status_bad_request : ℕ
status_bad_request = 400

abbrev pub status_internal_server_error : ℕ
status_internal_server_error = 500

-- `apis.FieldError` of knative; the nil pointer is `none`.
pub record FieldErrors : Type 1 where
  pub FieldError : Type 0
  pub err_generic : String → List String → FieldError
  pub also : Option FieldError → FieldError → Option FieldError
  pub text : FieldError → String

-- what `net.LookupHost` finds: an address, a `DNSError` with its `IsNotFound`, another error
pub data HostLookup : Type 0 where
  resolved : HostLookup
  dns_error : Bool → String → HostLookup
  lookup_error : HostLookup

-- What the check of a hostname asks of other packages.
pub record HostChecks : Type 0 where
  -- the text of the aggregate that `validation.IsFullyQualifiedDomainName` gives, if it is not nil
  pub not_qualified : String → Option String
  -- `regexp.Compile`, with `MatchString` of the expression
  pub compile : String → Option (String → Bool)
  -- `network.GetClusterDomainName()`
  pub cluster_domain : String
  pub lookup_host : String → HostLookup
