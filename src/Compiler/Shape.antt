-- ===== src/Compiler/Shape.antt =====
-- The whole of a compiled workflow template, by its specification.
use flokoa.Common.{◌≡◌, ◌≢◌, true, Bool, none, List, [], ◌∷◌, Pointwise, some, codes}
use flokoa.Api.Workflow.{AgentWorkflow}
use flokoa.Compiler.Argo.{DagTask, Template, WorkflowTemplate}
use flokoa.Compiler.Json.{Runtime}
use flokoa.Compiler.Tasks.{Likewise, OneBody, TemplateOf}
use flokoa.Compiler.Nodes.{Nodes}
use flokoa.Compiler.Parameters.{ParametersOf}

-- The service account and its token, where the workflow does not choose, and the deadline.
pub record Settings (env : Runtime) (awf : AgentWorkflow) (wft : WorkflowTemplate) : Type 0 where
  pub name : wft.name ≡ awf.name
  pub namespace : wft.namespace ≡ awf.namespace
  pub default_account :
      awf.spec.service_account_name ≡ [] → wft.service_account_name ≡ codes "flokoa-workflow"
  pub account :
      awf.spec.service_account_name ≢ [] → wft.service_account_name ≡ awf.spec.service_account_name
  pub default_token :
      awf.spec.automount_service_account_token ≡ none
      → wft.automount_service_account_token ≡ some true
  pub token :
      (b : Bool)
      → awf.spec.automount_service_account_token ≡ some b
      → wft.automount_service_account_token ≡ some b
  pub deadline : Likewise (λ d s. s ≡ env.seconds d) awf.spec.timeout wft.active_deadline_seconds

-- The compiled workflow template, said field by field.
pub record IsCompilation (env : Runtime) (awf : AgentWorkflow) (wft : WorkflowTemplate)
    : Type 0 where
  pub main : Template
  pub rest : List Template
  pub templates : wft.templates ≡ main ∷ rest
  pub main_name : main.name ≡ codes "main"
  pub nodes : List DagTask
  pub main_dag : main.dag ≡ some nodes
  pub main_body : OneBody main
  pub are_nodes : Nodes awf.spec.tasks nodes
  pub each : Pointwise (TemplateOf env awf) awf.spec.tasks rest
  pub entrypoint : wft.entrypoint ≡ codes "main"
  pub parameters : ParametersOf env awf wft.parameters
  pub settings : Settings env awf wft
