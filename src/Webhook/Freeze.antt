-- ===== src/Webhook/Freeze.antt =====
-- validateAgentTaskFreeze of operator/internal/webhook/v1alpha1/agentworkflow_webhook.go.
pub mod Tolerated
use Prim.Native.String.{String}
use mathlib.Core.List.Memᴰ
use flokoa.Common.{
  ℕ, suc, ◌+◌, ◌≡◌, refl, ◌↔◌, ◌⊎◌, inl, inr, Bool, true, false, ◌&&◌, not, List, [], ◌∷◌, ◌++◌,
  Memᴰ, Memᴰ-cons, Memᴰ-nil, Option, none, some, Text, is_set, contains, contains_iff,
  if◌then◌else◌, arith, append-eq-nil,
}
use flokoa.Api.Workflow.{WorkflowTask, AgentWorkflow}
use flokoa.Webhook.Errors.{ErrorList, error_if, forbidden, child, index, tasks_path}

abbrev agent_task_freeze_message : String
agent_task_freeze_message =
    "agentTask is no longer supported: the AgentWorkflow API is frozen as a template-only resource and the agentTask runtime was removed in the v2.1 pivot; use an agent task calling a deployed Agent instead"

-- The keys of `oldAgentTasks`.
unfoldable pub agent_task_names : List WorkflowTask → List Text
agent_task_names [] = []
agent_task_names (task ∷ tasks) =
    if is_set task.agent_task then task.name ∷ agent_task_names tasks else agent_task_names tasks

abbrev pub old_agent_tasks : Option AgentWorkflow → List Text
old_agent_tasks none = []
old_agent_tasks (some old) = agent_task_names old.spec.tasks

unfoldable pub freeze_tasks : List Text → ℕ → List WorkflowTask → ErrorList
freeze_tasks old i [] = []
freeze_tasks old i (task ∷ tasks) =
    error_if (is_set task.agent_task && not (contains task.name old))
      (forbidden (child (index tasks_path i) "agentTask") agent_task_freeze_message)
    ++ freeze_tasks old (i + 1) tasks

unfoldable pub validate_agent_task_freeze : AgentWorkflow → Option AgentWorkflow → ErrorList
unfolding agent_task_names freeze_tasks
validate_agent_task_freeze wf old = freeze_tasks (old_agent_tasks old) 0 wf.spec.tasks
