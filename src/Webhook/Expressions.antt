-- ===== src/Webhook/Expressions.antt =====
-- validateExpressions and isValidExpression of
-- operator/internal/webhook/v1alpha1/agentworkflow_webhook.go.
pub mod Valid
use flokoa.Common.{
  ℕ, suc, ◌+◌, Bool, true, false, ◌||◌, not, List, [], ◌∷◌, ◌++◌, Option, none, some, Text, codes,
  is_empty, is_set, ◌==◌, contains, has_prefix, trim_prefix, split_dot, trim_space, if◌then◌else◌,
}
use flokoa.Api.Message.{MessagePart, AgentCall}
use flokoa.Api.Task.{AgentTask, EnvVar, ContainerTask, HttpHeader, HttpTask, SwitchCase}
use flokoa.Api.Workflow.{WorkflowTask}
use flokoa.Expression.{pieces, matches, braced}
use flokoa.Webhook.Errors.{
  FieldPath, child, index, ErrorList, error_if, invalid, invalid_expression,
}

abbrev valid_suffix : Text → Bool
valid_suffix suffix =
    suffix == codes "output" || suffix == codes "artifact" || has_prefix suffix (codes "output.")

abbrev valid_task_ref : List Text → Option (Text × Text) → Bool
valid_task_ref task_names none = false
valid_task_ref task_names (some (name, suffix)) =
    if contains name task_names then valid_suffix suffix else false

unfoldable pub is_valid_expression : Text → List Text → List Text → Bool
is_valid_expression e task_names param_names =
    if has_prefix e (codes "=")
    then true
    else if has_prefix e (codes "params.")
    then contains (trim_prefix e (codes "params.")) param_names
    else if has_prefix e (codes "tasks.")
    then valid_task_ref task_names (split_dot (trim_prefix e (codes "tasks.")))
    else false

-- The struct exprField.
pub record ExprField : Type 0 where
  pub path : FieldPath
  pub value : Text

-- A field that is scanned if it is not empty.
abbrev pub field_of : FieldPath → Text → List ExprField
field_of path value = if is_empty value then [] else record { path = path; value = value } ∷ []

abbrev pub part_fields : FieldPath → ℕ → List MessagePart → List ExprField
part_fields agent i [] = []
part_fields agent i (part ∷ parts) =
    elim part.text [
      | none ↦ []
      | some t ↦
          record {
            path = child (child (index (child (child agent "message") "parts") i) "text") "text";
            value = t.text;
          }
          ∷ []
    ]
    ++ part_fields agent (i + 1) parts

abbrev pub agent_fields : FieldPath → Option AgentCall → List ExprField
agent_fields path none = []
agent_fields path (some agent) =
    field_of (child (child path "agent") "text") agent.text
    ++ elim agent.message [ none ↦ [] | some m ↦ part_fields (child path "agent") 0 m.parts ]

abbrev pub agent_task_fields : FieldPath → Option AgentTask → List ExprField
agent_task_fields path none = []
agent_task_fields path (some t) =
    record { path = child (child path "agentTask") "input"; value = t.input } ∷ []

abbrev pub env_fields : FieldPath → ℕ → List EnvVar → List ExprField
env_fields path i [] = []
env_fields path i (env ∷ envs) =
    field_of (child (index (child (child path "container") "env") i) "value") env.value
    ++ env_fields path (i + 1) envs

abbrev pub header_fields : FieldPath → ℕ → List HttpHeader → List ExprField
header_fields path i [] = []
header_fields path i (h ∷ hs) =
    field_of (child (index (child (child path "http") "headers") i) "value") h.value
    ++ header_fields path (i + 1) hs

abbrev pub container_fields : FieldPath → Option ContainerTask → List ExprField
container_fields path none = []
container_fields path (some c) = env_fields path 0 c.env

abbrev pub http_fields : FieldPath → Option HttpTask → List ExprField
http_fields path none = []
http_fields path (some h) =
    field_of (child (child path "http") "url") h.url
    ++ (field_of (child (child path "http") "body") h.body ++ header_fields path 0 h.headers)

abbrev pub switch_fields : FieldPath → ℕ → List SwitchCase → List ExprField
switch_fields path i [] = []
switch_fields path i (sc ∷ scs) =
    field_of (child (index (child path "switch") i) "condition") sc.condition
    ++ switch_fields path (i + 1) scs

-- The fields of a task that are scanned, in the source's order.
unfoldable pub expr_fields : FieldPath → WorkflowTask → List ExprField
expr_fields path task =
    agent_fields path task.agent
    ++ (agent_task_fields path task.agent_task
        ++ (container_fields path task.container
            ++ (http_fields path task.http
                ++ (field_of (child path "condition") task.condition
                    ++ switch_fields path 0 task.switch))))

unfoldable pub check_matches : FieldPath → List Text → List Text → List Text → ErrorList
check_matches path task_names param_names [] = []
check_matches path task_names param_names (inner ∷ ms) =
    error_if (not (is_valid_expression (trim_space inner) task_names param_names))
      (invalid path (some (braced inner)) (invalid_expression (braced inner)))
    ++ check_matches path task_names param_names ms

unfoldable pub check_fields : List ExprField → List Text → List Text → ErrorList
check_fields [] task_names param_names = []
check_fields (f ∷ fs) task_names param_names =
    check_matches f.path task_names param_names (matches (pieces f.value))
    ++ check_fields fs task_names param_names

unfoldable pub validate_expressions : FieldPath → WorkflowTask → List Text → List Text → ErrorList
unfolding expr_fields
validate_expressions path task task_names param_names =
    check_fields (expr_fields path task) task_names param_names
