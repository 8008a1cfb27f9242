-- ===== src/Webhooks/Common/Logs.antt =====
-- When log settings are accepted.
use rcs_ocm_deployer.Common.{◌≡◌, ◌≢◌, ◌↔◌, none, [], ◌∷◌, arith, eq_iff}
use rcs_ocm_deployer.Api.Workload.{LogSpec}
use rcs_ocm_deployer.Runtime.Client.{Externals}
use rcs_ocm_deployer.Webhooks.Admission.{FieldErrors}
use rcs_ocm_deployer.Webhooks.Common.{find_missing_fields, validate_log_spec}

-- No field is missing exactly when the four of them are set.
find_missing_fields_elastic :
    (l : LogSpec)
    → (find_missing_fields l ("Host" ∷ "Index" ∷ "User" ∷ "PasswordSecret" ∷ []) ≡ [])
      ↔ ((l.host ≢ "") × (l.index ≢ "") × (l.user ≢ "") × (l.password_secret ≢ ""))
unfolding find_missing_fields
find_missing_fields_elastic l =
    ground
      (arith, eq_iff l.host "", eq_iff l.index "", eq_iff l.user "", eq_iff l.password_secret "")

-- Log settings pass exactly when their type is `elastic` and none of host, index, user and
-- password secret is empty.
pub validate_log_spec-eq-none_iff :
    (E : Externals) (F : FieldErrors) (l : LogSpec)
    → (validate_log_spec E F l ≡ none) ↔ (
        (l.type ≡ "elastic")
        × (l.host ≢ "")
        × (l.index ≢ "")
        × (l.user ≢ "")
        × (l.password_secret ≢ ""))
unfolding validate_log_spec
validate_log_spec-eq-none_iff E F l =
    ground (arith, eq_iff "elastic" l.type, find_missing_fields_elastic l)
