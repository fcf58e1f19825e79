-- ===== src/Trigger/Spec.antt =====
-- The spec of an AgentTrigger (operator/api/v1alpha1/agenttrigger_types.go), with the fields that its
-- validation reads, and ValidateSpec of operator/internal/domain/trigger/validate.go.
pub mod Valid
use flokoa.Common.{
  ℕ, suc, List, [], ◌∷◌, Option, none, some, Text, Bool, true, false, is_empty, is_set, not, ◌&&◌,
  if◌then◌else◌,
}

pub record EventSourceRef : Type 0 where
  pub name : Text
  pub event_name : Text

pub record DataFilter : Type 0 where
  pub path : Text
  pub values : List Text

pub record TriggerFilter : Type 0 where
  pub data_filters : List DataFilter
  pub exprs : List Text

-- `agent_ref` is the name in the reference.
pub record PushNotificationTarget : Type 0 where
  pub agent_ref : Option Text
  pub url : Text

pub record AgentTriggerSpec : Type 0 where
  pub event_source : EventSourceRef
  pub agent_name : Text
  pub push_notification : Option PushNotificationTarget
  pub filter : Option TriggerFilter

pub data TriggerSpecError : Type 0 where
  event_source_name_required event_name_required agent_name_required : TriggerSpecError
  no_push_target both_push_targets push_agent_name_required : TriggerSpecError
  filter_path_required filter_value_required filter_expr_required : ℕ → TriggerSpecError

abbrev pub push_error : Option Text → Text → Option TriggerSpecError
push_error none url = if is_empty url then some no_push_target else none
push_error (some name) url =
    if not (is_empty url)
    then some both_push_targets
    else if is_empty name
    then some push_agent_name_required
    else none

abbrev pub check_push : Option PushNotificationTarget → Option TriggerSpecError
check_push none = none
check_push (some p) = push_error p.agent_ref p.url

abbrev pub is_nil {ℓ} : {A : Type ℓ} → List A → Bool
is_nil [] = true
is_nil (x ∷ xs) = false

-- The loop over the data filters from an index on.
unfoldable pub check_data : ℕ → List DataFilter → Option TriggerSpecError
check_data i [] = none
check_data i (f ∷ fs) =
    let rest = check_data (suc i) fs in
    if is_empty f.path
    then some (filter_path_required i)
    else if is_nil f.values
    then some (filter_value_required i)
    else rest

unfoldable pub check_exprs : ℕ → List Text → Option TriggerSpecError
check_exprs i [] = none
check_exprs i (e ∷ es) =
    let rest = check_exprs (suc i) es in if is_empty e then some (filter_expr_required i) else rest

abbrev pub first_error : Option TriggerSpecError → Option TriggerSpecError → Option TriggerSpecError
first_error none later = later
first_error (some e) later = some e

abbrev pub check_filter : Option TriggerFilter → Option TriggerSpecError
check_filter none = none
check_filter (some f) = first_error (check_data 0 f.data_filters) (check_exprs 0 f.exprs)

-- `none` where the code returns nil.
unfoldable pub validate_spec : AgentTriggerSpec → Option TriggerSpecError
unfolding check_data check_exprs
validate_spec s =
    if is_empty s.event_source.name
    then some event_source_name_required
    else if is_empty s.event_source.event_name
    then some event_name_required
    else if is_empty s.agent_name
    then some agent_name_required
    else first_error (check_push s.push_notification) (check_filter s.filter)
