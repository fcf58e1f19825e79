-- ===== src/Webhook/Validate.antt =====
-- ValidateAgentWorkflow and the create, update and delete handlers of
-- operator/internal/webhook/v1alpha1/agentworkflow_webhook.go.
use flokoa.Common.{
  ℕ, ◌+◌, ◌&&◌, not, List, [], ◌∷◌, ◌++◌, map, Option, none, some, Text, is_empty, is_set,
  count_one, same_code, ltb, nonempty, contains, ◌==◌,
}
use flokoa.Api.Task.{SwitchCase}
use flokoa.Api.Workflow.{WorkflowTask, AgentWorkflow}
use flokoa.Webhook.Errors.{
  FieldPath, child, index, ErrorList, error_if, required, forbidden, duplicate, not_found, invalid,
  message, dependency_cycle, InvalidObject, aggregate_errors, tasks_path,
}
use flokoa.Webhook.Freeze.{validate_agent_task_freeze}
use flokoa.Webhook.Expressions.{validate_expressions}
use flokoa.Webhook.Tasks.{validate_agent_call, validate_container_task, validate_http_task}
use flokoa.Webhook.Cycles.{Outcome, finished, cycle, out_of_fuel, detect_dag_cycles}

-- `typeCount` of W3.
abbrev pub type_count : WorkflowTask → ℕ
type_count task =
    count_one (is_set task.agent)
    + count_one (is_set task.agent_task)
    + count_one (is_set task.container)
    + count_one (is_set task.http)
    + count_one (nonempty task.switch)

-- W6.
unfoldable pub validate_depends_on : FieldPath → Text → List Text → ℕ → List Text → ErrorList
validate_depends_on path name task_names j [] = []
validate_depends_on path name task_names j (dep ∷ deps) =
    error_if (not (contains dep task_names)) (not_found (index (child path "dependsOn") j) dep)
    ++ (error_if (dep == name) (
          invalid (index (child path "dependsOn") j) (some dep)
            (message "a task cannot depend on itself"))
        ++ validate_depends_on path name task_names (j + 1) deps)

-- W7.
unfoldable pub validate_switch : FieldPath → List Text → ℕ → List SwitchCase → ErrorList
validate_switch path task_names j [] = []
validate_switch path task_names j (sc ∷ scs) =
    error_if (not (is_empty sc.then_task) && not (contains sc.then_task task_names))
      (not_found (child (index (child path "switch") j) "then") sc.then_task)
    ++ (error_if (not (is_empty sc.default_task) && not (contains sc.default_task task_names))
          (not_found (child (index (child path "switch") j) "default") sc.default_task)
        ++ validate_switch path task_names (j + 1) scs)

abbrev pub if_set {ℓ} : {A : Type ℓ} → Option A → (A → ErrorList) → ErrorList
if_set none f = []
if_set (some a) f = f a

-- One round of the loop over the tasks: W2 to W9. `seen` holds the keys of `seenNames`.
unfoldable pub validate_task : List Text → List Text → List Text → ℕ → WorkflowTask → ErrorList
unfolding validate_depends_on validate_switch
validate_task task_names param_names seen i task =
    let path = index tasks_path i in
    error_if (contains task.name seen) (duplicate (child path "name") task.name)
    ++ (error_if (same_code (type_count task) 0) (
          required path
            "exactly one of agent, agentTask, container, http, or switch must be specified")
        ++ (error_if (ltb 1 (type_count task)) (
              forbidden path
                "only one of agent, agentTask, container, http, or switch may be specified")
            ++ (if_set task.agent (λ a. validate_agent_call (child path "agent") a)
                ++ (if_set task.container (λ c. validate_container_task (child path "container") c)
                    ++ (if_set task.http (λ h. validate_http_task (child path "http") h)
                        ++ (validate_depends_on path task.name task_names 0 task.depends_on
                            ++ (validate_switch path task_names 0 task.switch
                                ++ validate_expressions path task task_names param_names)))))))

unfoldable pub validate_tasks :
    List Text → List Text → List Text → ℕ → List WorkflowTask → ErrorList
unfolding validate_task
validate_tasks task_names param_names seen i [] = []
validate_tasks task_names param_names seen i (task ∷ tasks) =
    validate_task task_names param_names seen i task
    ++ validate_tasks task_names param_names (task.name ∷ seen) (i + 1) tasks

-- The code has no fuel, and the last case no counterpart in it.
abbrev pub cycle_errors : Outcome → ErrorList
cycle_errors (finished c) = []
cycle_errors (cycle d) = invalid tasks_path none (dependency_cycle d) ∷ []
cycle_errors out_of_fuel = []

abbrev pub task_names_of : AgentWorkflow → List Text
task_names_of wf = map (λ t. t.name) wf.spec.tasks

abbrev pub param_names_of : AgentWorkflow → List Text
param_names_of wf = map (λ p. p.name) wf.spec.params

unfoldable pub workflow_errors : AgentWorkflow → ErrorList
unfolding validate_tasks
workflow_errors wf =
    error_if (not (nonempty wf.spec.tasks)) (required tasks_path "at least one task is required")
    ++ (validate_tasks (task_names_of wf) (param_names_of wf) [] 0 wf.spec.tasks
        ++ cycle_errors (detect_dag_cycles wf.spec.tasks))

unfoldable pub validate_agent_workflow : AgentWorkflow → Option InvalidObject
unfolding workflow_errors aggregate_errors
validate_agent_workflow wf = aggregate_errors (workflow_errors wf) wf.name

-- The handlers; `none` is the nil error. Their casts to AgentWorkflow are the argument's type.
abbrev pub freeze_or_validate : ErrorList → AgentWorkflow → Option InvalidObject
freeze_or_validate [] wf = validate_agent_workflow wf
freeze_or_validate (e ∷ errs) wf = aggregate_errors (e ∷ errs) wf.name

unfoldable pub validate_create : AgentWorkflow → Option InvalidObject
unfolding validate_agent_workflow validate_agent_task_freeze
validate_create wf = freeze_or_validate (validate_agent_task_freeze wf none) wf

unfoldable pub validate_update : AgentWorkflow → AgentWorkflow → Option InvalidObject
unfolding validate_agent_workflow validate_agent_task_freeze
validate_update old wf = freeze_or_validate (validate_agent_task_freeze wf (some old)) wf

unfoldable pub validate_delete : AgentWorkflow → Option InvalidObject
validate_delete wf = none
