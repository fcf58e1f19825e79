-- ===== src/Webhook/Handlers.antt =====
-- What the create and update handlers admit.
use flokoa.Common.{◌≡◌, refl, ◌≢◌, ◌↔◌, true, [], ◌∷◌, Memᴰ, Option, none, some, is_set}
use flokoa.Api.Workflow.{WorkflowTask, AgentWorkflow}
use flokoa.Webhook.Errors.{ErrorList, aggregate_errors}
use flokoa.Webhook.Freeze.{validate_agent_task_freeze}
use flokoa.Webhook.Freeze.Tolerated.{Tolerated, validate_agent_task_freeze_iff}
use flokoa.Webhook.Validate.{
  validate_agent_workflow, freeze_or_validate, validate_create, validate_update,
}
use flokoa.Webhook.Conforms.{WellFormed}
use flokoa.Webhook.Accepts.{validate_agent_workflow-eq-none_iff}

-- Every task that uses agentTask is tolerated.
abbrev pub Frozen : Option AgentWorkflow → AgentWorkflow → Type 0
Frozen old wf =
    (t : WorkflowTask) → Memᴰ t wf.spec.tasks → is_set t.agent_task ≡ true → Tolerated old t.name

freeze_or_validate_iff :
    (errs : ErrorList) (wf : AgentWorkflow)
    → (freeze_or_validate errs wf ≡ none) ↔ ((errs ≡ []) × (validate_agent_workflow wf ≡ none))
unfolding aggregate_errors
freeze_or_validate_iff [] wf = (λ h. (refl, h), λ h. h.1)
freeze_or_validate_iff (e ∷ errs) wf = (λ h. cc, λ h. cc)

freeze_then_validate_iff :
    (old : Option AgentWorkflow) (wf : AgentWorkflow)
    → (freeze_or_validate (validate_agent_task_freeze wf old) wf ≡ none)
      ↔ (Frozen old wf × WellFormed wf)
freeze_then_validate_iff old wf =
    let both = freeze_or_validate_iff (validate_agent_task_freeze wf old) wf in
    let frozen = validate_agent_task_freeze_iff wf old in
    let formed = validate_agent_workflow-eq-none_iff wf in
    (λ h. (frozen.0 (both.0 h).0, formed.0 (both.0 h).1), λ (f, w). both.1 (frozen.1 f, formed.1 w))

-- `ValidateCreate` admits exactly the well-formed workflows without any agentTask.
pub validate_create-eq-none_iff :
    (wf : AgentWorkflow)
    → (validate_create wf ≡ none)
      ↔ (((t : WorkflowTask) → Memᴰ t wf.spec.tasks → is_set t.agent_task ≢ true) × WellFormed wf)
unfolding validate_create
validate_create-eq-none_iff wf = freeze_then_validate_iff none wf

-- `ValidateUpdate` admits exactly the well-formed workflows whose every agentTask stands in a task
-- whose name is that of a task with an agentTask in the old object.
pub validate_update-eq-none_iff :
    (old wf : AgentWorkflow)
    → (validate_update old wf ≡ none) ↔ (
        ((t : WorkflowTask)
          → Memᴰ t wf.spec.tasks
          → is_set t.agent_task ≡ true
          → Tolerated (some old) t.name)
        × WellFormed wf)
unfolding validate_update
validate_update-eq-none_iff old wf = freeze_then_validate_iff (some old) wf
