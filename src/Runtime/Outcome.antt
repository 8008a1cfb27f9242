-- ===== src/Runtime/Outcome.antt =====
-- Go's errors, as the code tells them apart, and the ways in which a call ends.
use rcs_ocm_deployer.Common.{String, Bool, true, false}

-- The reasons of a `StatusError` that the code asks for.
pub data Reason : Type 0 where
  not_found conflict other_reason : Reason

-- An error of the API server, `ErrNoManagedCluster{}`, or one that `fmt.Errorf` or a library made
-- and that the code only reads the text of.
pub data Error : Type 0 where
  status : Reason → String → Error
  no_managed_cluster : Error
  errorf : String → Error

-- `err.Error()`, with the text of `ErrNoManagedCluster.Error`
unfoldable pub error_text : Error → String
error_text (status r s) = s
error_text no_managed_cluster = "No managed cluster was found to deploy on. Requeue"
error_text (errorf s) = s

-- `errors.IsNotFound`
unfoldable pub is_not_found : Error → Bool
is_not_found (status not_found s) = true
is_not_found _ = false

-- `errors.IsConflict`
unfoldable pub is_conflict : Error → Bool
is_conflict (status conflict s) = true
is_conflict _ = false

-- What an external call gives back: a value or an error.
pub data Reply (A : Type 0) : Type 0 where
  done : A → Reply A
  failed : Error → Reply A

-- How a function of the program ends: it returns a value with a nil error, it returns an error,
-- or it panics (a nil pointer, an index out of range).
pub data Outcome (A : Type 0) : Type 0 where
  ok : A → Outcome A
  err : Error → Outcome A
  panic : Outcome A
