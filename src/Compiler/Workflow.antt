-- ===== src/Compiler/Workflow.antt =====
-- compileToArgoWorkflowTemplate and buildSwitchDAGTasks of
-- operator/internal/controller/agentworkflow_compiler.go.
use flokoa.Common.{
  map_option, true, false, ◌&&◌, not, List, [], ◌∷◌, ◌++◌, map, Option, none, some, Text, codes,
  is_empty, contains, if◌then◌else◌,
}
use flokoa.Api.Task.{KeySelector, HttpHeader, HttpTask, SwitchCase}
use flokoa.Api.Workflow.{WorkflowParam, WorkflowTask, AgentWorkflow}
use flokoa.Compiler.Argo.{
  Parameter, DagTask, Template, WorkflowTemplate, empty_value_from, empty_parameter, empty_template,
}
use flokoa.Compiler.Json.{Runtime}
use flokoa.Compiler.Expressions.{translate_condition_expr}
use flokoa.Compiler.Plugin.{traceparent_workflow_param}
use flokoa.Compiler.Templates.{
  CompilerOptions, cm_param_name, config_map_ref, TemplateError, Built, built, failed,
  build_template,
}

abbrev pub dag_entrypoint_name : Text
dag_entrypoint_name = codes "main"

-- "%s-%s"
abbrev pub branch_name : Text → Text → Text
branch_name task target = task ++ (codes "-" ++ target)

abbrev pub then_branch : Text → SwitchCase → List DagTask
then_branch name sc =
    if not (is_empty sc.then_task) && not (is_empty sc.condition)
    then record {
      name = branch_name name sc.then_task;
      template = sc.then_task;
      dependencies = name ∷ [];
      when = translate_condition_expr sc.condition;
    }
      ∷ []
    else []

abbrev pub default_branch : Text → SwitchCase → List DagTask
default_branch name sc =
    if not (is_empty sc.default_task)
    then record {
      name = branch_name name sc.default_task;
      template = sc.default_task;
      dependencies = name ∷ [];
      when = [];
    }
      ∷ []
    else []

unfoldable pub build_switch_dag_tasks : Text → List SwitchCase → List DagTask
build_switch_dag_tasks name [] = []
build_switch_dag_tasks name (sc ∷ scs) =
    then_branch name sc ++ (default_branch name sc ++ build_switch_dag_tasks name scs)

abbrev pub dag_task : WorkflowTask → DagTask
dag_task task = record {
  name = task.name;
  template = task.name;
  dependencies = task.depends_on;
  when = if is_empty task.condition then [] else translate_condition_expr task.condition;
}

-- The DAG tasks of one workflow task.
abbrev pub dag_tasks_of : WorkflowTask → List DagTask
dag_tasks_of task = dag_task task ∷ build_switch_dag_tasks task.name task.switch

-- An error carries the name of the task whose template failed.
pub data Compiled {ℓ} (A : Type ℓ) : Type ℓ where
  compiled : A → Compiled A
  template_error : Text → TemplateError → Compiled A

infixl 5 ◌>>=◌
abbrev pub ◌>>=◌ {ℓ κ} : {A : Type ℓ} {B : Type κ} → Compiled A → (A → Compiled B) → Compiled B
compiled a >>= f = f a
template_error name e >>= f = template_error name e

abbrev pub in_task {ℓ} : {A : Type ℓ} → Text → Built A → Compiled A
in_task name (built a) = compiled a
in_task name (failed e) = template_error name e

module _ (env : Runtime) (awf : AgentWorkflow) (opts : CompilerOptions) where
  -- The loop over the tasks: the templates and the DAG tasks.
  unfoldable pub compile_tasks : List WorkflowTask → Compiled (List Template × List DagTask)
  compile_tasks [] = compiled ([], [])
  compile_tasks (task ∷ tasks) = do
    tmpl ← in_task task.name (build_template env awf task opts)
    rest ← compile_tasks tasks
    compiled (tmpl ∷ rest.0, dag_tasks_of task ++ rest.1)

abbrev pub traceparent_parameter : Text → Parameter
traceparent_parameter value = record empty_parameter {
  name = traceparent_workflow_param;
  default_value = some value;
}

abbrev pub workflow_param : WorkflowParam → Parameter
workflow_param p = record empty_parameter {
  name = p.name;
  value = some p.value;
  description = if is_empty p.description then none else some p.description;
}

abbrev pub cm_parameter : KeySelector → Parameter
cm_parameter ref = record empty_parameter {
  name = cm_param_name ref;
  value_from = some (record empty_value_from { config_map_key_ref = some ref });
}

-- `seen` holds the keys of `cmParamsSeen`.
abbrev pub header_cm_refs : List HttpHeader → List KeySelector
header_cm_refs [] = []
header_cm_refs (h ∷ hs) = elim (config_map_ref h.value_from) [
  | none ↦ header_cm_refs hs
  | some ref ↦ ref ∷ header_cm_refs hs
]

abbrev pub task_cm_refs : Option HttpTask → List KeySelector
task_cm_refs none = []
task_cm_refs (some h) = header_cm_refs h.headers

-- The references that the two nested loops meet, in order.
abbrev pub cm_refs : List WorkflowTask → List KeySelector
cm_refs [] = []
cm_refs (task ∷ tasks) = task_cm_refs task.http ++ cm_refs tasks

unfoldable pub cm_parameters : List Text → List KeySelector → List Parameter
cm_parameters seen [] = []
cm_parameters seen (ref ∷ refs) = elim (contains (cm_param_name ref) seen) [
  | true ↦ cm_parameters seen refs
  | false ↦ cm_parameter ref ∷ cm_parameters (cm_param_name ref ∷ seen) refs
]

abbrev pub dag_template : List DagTask → Template
dag_template tasks = record empty_template { name = dag_entrypoint_name; dag = some tasks }

-- The workflow template around the compiled tasks.
unfoldable pub assemble :
    Runtime → AgentWorkflow → CompilerOptions → List Template → List DagTask → WorkflowTemplate
unfolding cm_parameters
assemble env awf opts templates dag_tasks = record {
  api_version = codes "argoproj.io/v1alpha1";
  kind = codes "WorkflowTemplate";
  name = awf.name;
  namespace = awf.namespace;
  labels =
      (codes "agent.flokoa.ai/agentworkflow-name", awf.name)
      ∷ (codes "app.kubernetes.io/managed-by", codes "flokoa-operator")
      ∷ [];
  entrypoint = dag_entrypoint_name;
  service_account_name =
      if is_empty awf.spec.service_account_name
      then codes "flokoa-workflow"
      else awf.spec.service_account_name;
  automount_service_account_token = elim awf.spec.automount_service_account_token [
    | none ↦ some true
    | some b ↦ some b
  ];
  parameters =
      traceparent_parameter env.traceparent
      ∷ (map workflow_param awf.spec.params ++ cm_parameters [] (cm_refs awf.spec.tasks));
  active_deadline_seconds = map_option env.seconds awf.spec.timeout;
  artifact_gc =
      if opts.artifact_io_enabled && not (is_empty opts.artifact_gc_strategy)
      then some opts.artifact_gc_strategy
      else none;
  templates = dag_template dag_tasks ∷ templates;
}

unfoldable pub compile_to_argo_workflow_template :
    Runtime → AgentWorkflow → CompilerOptions → Compiled WorkflowTemplate
unfolding compile_tasks assemble
compile_to_argo_workflow_template env awf opts = do
  parts ← compile_tasks env awf opts awf.spec.tasks
  compiled (assemble env awf opts parts.0 parts.1)
