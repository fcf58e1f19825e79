-- ===== src/Api/Workflow.antt =====
-- The workflow types of operator/api/v1alpha1/agentworkflow_types.go. A duration is its number of
-- nanoseconds.
use flokoa.Common.{ℤ, List, Option, Bool, Text}
use flokoa.Api.Message.{AgentCall}
use flokoa.Api.Task.{AgentTask, ContainerTask, HttpTask, SwitchCase}

pub record WorkflowBackoff : Type 0 where
  pub duration : Text
  pub factor : Option ℤ

pub record WorkflowRetryStrategy : Type 0 where
  pub limit : ℤ
  pub backoff : Option WorkflowBackoff

pub record WorkflowParam : Type 0 where
  pub name : Text
  pub description : Text
  pub value : Text

pub record WorkflowTask : Type 0 where
  pub name : Text
  pub agent : Option AgentCall
  pub agent_task : Option AgentTask
  pub container : Option ContainerTask
  pub http : Option HttpTask
  pub switch : List SwitchCase
  pub depends_on : List Text
  pub timeout : Option ℤ
  pub retry_strategy : Option WorkflowRetryStrategy
  pub condition : Text

pub record AgentWorkflowSpec : Type 0 where
  pub description : Text
  pub params : List WorkflowParam
  pub tasks : List WorkflowTask
  pub timeout : Option ℤ
  pub retry_strategy : Option WorkflowRetryStrategy
  pub service_account_name : Text
  pub automount_service_account_token : Option Bool

-- The metadata that the code reads, and the spec.
pub record AgentWorkflow : Type 0 where
  pub name : Text
  pub namespace : Text
  pub spec : AgentWorkflowSpec
