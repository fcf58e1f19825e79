-- ===== src/Tests/Webhook.antt =====
-- The webhook on the sample.
use flokoa.Common.{
  List, ◌≡◌, refl, ◌≢◌, ◌↔◌, true, [], ◌∷◌, Memᴰ, none, some, Text, codes, trim_prefix, split_dot,
  trim_space, contains, ◌==◌, is_set,
}
use flokoa.Api.Workflow.{WorkflowTask}
use flokoa.Expression.{Piece, plain, expr, pieces}
use flokoa.Webhook.Freeze.{validate_agent_task_freeze}
use flokoa.Webhook.Expressions.{
  is_valid_expression, check_matches, check_fields, validate_expressions,
}
use flokoa.Webhook.Tasks.{validate_agent_call, validate_container_task, validate_http_task}
use flokoa.Webhook.Cycles.{Colors, cycle, finished, out_of_fuel, detect_dag_cycles}
use flokoa.Webhook.Validate.{validate_agent_workflow, validate_create, validate_update}
use flokoa.Expression.Reference.{Resolves}
use flokoa.Expression.Pieces.{IsCut, pieces_lem}
use flokoa.Webhook.Conforms.{WellFormed}
use flokoa.Webhook.Cycles.Verdict.{
  OnCycle, detect_dag_cycles-finished_iff, detect_dag_cycles-cycle,
  detect_dag_cycles-ne-out_of_fuel,
}
use flokoa.Webhook.Accepts.{validate_agent_workflow-eq-none_iff}
use flokoa.Webhook.Expressions.Valid.{is_valid_expression_iff}
use flokoa.Webhook.Freeze.Tolerated.{Tolerated, validate_agent_task_freeze_iff}
use flokoa.Webhook.Handlers.{validate_create-eq-none_iff, validate_update-eq-none_iff}
use flokoa.Tests.Sample.{sample, circle_tasks}

pub sample_accepted : validate_agent_workflow sample ≡ none
unfolding validate_agent_workflow validate_agent_call validate_container_task validate_http_task
    validate_expressions check_fields check_matches is_valid_expression pieces trim_space
    trim_prefix split_dot contains detect_dag_cycles
sample_accepted = refl

pub sample_created : validate_create sample ≡ none
unfolding validate_create
sample_created = sample_accepted

circle_found : detect_dag_cycles circle_tasks ≡ cycle (codes "a")
unfolding detect_dag_cycles ◌==◌
circle_found = refl

validate_agent_workflow-eq-none_iff_example :
    (validate_agent_workflow sample ≡ none) ↔ WellFormed sample
validate_agent_workflow-eq-none_iff_example = validate_agent_workflow-eq-none_iff sample

detect_dag_cycles-finished_iff_example :
    ((c : Colors) × (detect_dag_cycles circle_tasks ≡ finished c))
    ↔ ((d : Text) → ¬ OnCycle circle_tasks d)
detect_dag_cycles-finished_iff_example = detect_dag_cycles-finished_iff circle_tasks

detect_dag_cycles-cycle_example : OnCycle circle_tasks (codes "a")
detect_dag_cycles-cycle_example = detect_dag_cycles-cycle circle_tasks (codes "a") circle_found

detect_dag_cycles-ne-out_of_fuel_example : detect_dag_cycles circle_tasks ≢ out_of_fuel
detect_dag_cycles-ne-out_of_fuel_example = detect_dag_cycles-ne-out_of_fuel circle_tasks

is_valid_expression_iff_example :
    (is_valid_expression (codes "tasks.ask.output.ok") (codes "ask" ∷ []) [] ≡ true)
    ↔ Resolves (codes "ask" ∷ []) [] (codes "tasks.ask.output.ok")
is_valid_expression_iff_example =
    is_valid_expression_iff (codes "tasks.ask.output.ok") (codes "ask" ∷ []) []

validate_agent_task_freeze_iff_example : (validate_agent_task_freeze sample (some sample) ≡ []) ↔ (
    (t : WorkflowTask)
    → Memᴰ t sample.spec.tasks
    → is_set t.agent_task ≡ true
    → Tolerated (some sample) t.name)
validate_agent_task_freeze_iff_example = validate_agent_task_freeze_iff sample (some sample)

validate_create-eq-none_iff_example : (validate_create sample ≡ none) ↔ (
    ((t : WorkflowTask) → Memᴰ t sample.spec.tasks → is_set t.agent_task ≢ true)
    × WellFormed sample)
validate_create-eq-none_iff_example = validate_create-eq-none_iff sample

validate_update-eq-none_iff_example : (validate_update sample sample ≡ none) ↔ (
    ((t : WorkflowTask)
      → Memᴰ t sample.spec.tasks
      → is_set t.agent_task ≡ true
      → Tolerated (some sample) t.name)
    × WellFormed sample)
validate_update-eq-none_iff_example = validate_update-eq-none_iff sample sample

abbrev cut_text : List Piece
cut_text = plain b'a' ∷ plain b' ' ∷ expr (codes " b ") ∷ plain b' ' ∷ plain b'}' ∷ plain b'}' ∷ []

pieces_lem_example :
    (cut_text ≡ pieces (codes "a {{ b }} }}")) ↔ IsCut cut_text (codes "a {{ b }} }}")
pieces_lem_example = pieces_lem cut_text (codes "a {{ b }} }}")
