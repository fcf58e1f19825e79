-- ===== src/Webhook/Errors.antt =====
-- The error lists of operator/internal/webhook/v1alpha1/agentworkflow_webhook.go. A field path and a
-- field error are the calls of the library `field` that build them.
use Prim.Native.String.{String}
use flokoa.Common.{ℕ, Bool, true, false, List, [], ◌∷◌, Option, none, some, Text}

-- NewPath, Child and Index.
pub data FieldPath : Type 0 where
  new_path : String → FieldPath
  child : FieldPath → String → FieldPath
  index : FieldPath → ℕ → FieldPath

-- A detail is a message, or a format with its argument: "invalid expression: %s" and "dependency
-- cycle detected involving task %q".
pub data Detail : Type 0 where
  message : String → Detail
  invalid_expression : Text → Detail
  dependency_cycle : Text → Detail

pub data FieldError : Type 0 where
  required : FieldPath → String → FieldError
  forbidden : FieldPath → String → FieldError
  duplicate : FieldPath → Text → FieldError
  not_found : FieldPath → Text → FieldError
  invalid : FieldPath → Option Text → Detail → FieldError

abbrev pub ErrorList : Type 0
ErrorList = List FieldError

-- `if failed { allErrs = append(allErrs, e) }`
abbrev pub error_if : Bool → FieldError → ErrorList
error_if true e = e ∷ []
error_if false e = []

-- The error that aggregateErrors makes: apierrors.NewInvalid for the object of this name.
pub record InvalidObject : Type 0 where
  pub name : Text
  pub errors : ErrorList

unfoldable pub aggregate_errors : ErrorList → Text → Option InvalidObject
aggregate_errors [] name = none
aggregate_errors (e ∷ errs) name = some (record { name = name; errors = e ∷ errs })

abbrev pub spec_path : FieldPath
spec_path = new_path "spec"

abbrev pub tasks_path : FieldPath
tasks_path = child spec_path "tasks"
