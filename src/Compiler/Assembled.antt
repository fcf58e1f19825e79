-- ===== src/Compiler/Assembled.antt =====
-- A compiled workflow template is assembled from the outline of its tasks.
use flokoa.Common.{◌≡◌, refl, ap, subst, List, [], ◌∷◌, ◌++◌, map, Option, none, some}
use flokoa.Api.Workflow.{AgentWorkflow}
use flokoa.Compiler.Argo.{DagTask, Template, WorkflowTemplate}
use flokoa.Compiler.Json.{Runtime}
use flokoa.Compiler.Templates.{CompilerOptions}
use flokoa.Compiler.Workflow.{
  Compiled, compiled, template_error, ◌>>=◌, compile_tasks, dag_template, assemble,
  compile_to_argo_workflow_template, dag_entrypoint_name, traceparent_parameter, workflow_param,
  cm_parameters, cm_refs,
}
use flokoa.Compiler.Succeeds.{Templates, all_dag_tasks, Outline, OnCompiled, compile_tasks-Outline}

compiled-injective {ℓ} :
    {A : Type ℓ} {a b : A} → ◌≡◌ {A = Compiled A} (compiled a) (compiled b) → a ≡ b
compiled-injective h = cc

-- The fields that do not depend on whether a template fails, and the templates.
pub record Assembled (env : Runtime) (awf : AgentWorkflow) (opts : CompilerOptions)
    (wft : WorkflowTemplate) : Type 0 where
  pub rest : List Template
  pub templates : wft.templates ≡ dag_template (all_dag_tasks awf.spec.tasks) ∷ rest
  pub each : Templates env awf opts awf.spec.tasks rest
  pub entrypoint : wft.entrypoint ≡ dag_entrypoint_name
  pub parameters :
      wft.parameters
      ≡ traceparent_parameter env.traceparent
        ∷ (map workflow_param awf.spec.params ++ cm_parameters [] (cm_refs awf.spec.tasks))
  pub whole : wft ≡ assemble env awf opts rest (all_dag_tasks awf.spec.tasks)

pub compile-Assembled :
    (env : Runtime) (awf : AgentWorkflow) (opts : CompilerOptions) (wft : WorkflowTemplate)
    → compile_to_argo_workflow_template env awf opts ≡ compiled wft
    → Assembled env awf opts wft
unfolding compile_to_argo_workflow_template assemble
compile-Assembled env awf opts wft h =
    go (compile_tasks env awf opts awf.spec.tasks)
      (compile_tasks-Outline env awf opts awf.spec.tasks) h
  where
    go :
        (r : Compiled (List Template × List DagTask))
        → OnCompiled env awf opts (Outline env awf opts awf.spec.tasks) r
        → (r >>= λ parts. compiled (assemble env awf opts parts.0 parts.1)) ≡ compiled wft
        → Assembled env awf opts wft
    go (template_error n e) o h = cc
    go (compiled parts) o h = subst (Assembled env awf opts) (compiled-injective h) (record {
      rest = parts.0;
      templates = ap (λ d. dag_template d ∷ parts.0) o.dag;
      each = o.templates;
      entrypoint = refl;
      parameters = refl;
      whole = ap (assemble env awf opts parts.0) o.dag;
    })

-- The DAG tasks of the entry point, which is the first template.
abbrev tasks_of : Option (List DagTask) → List DagTask
tasks_of none = []
tasks_of (some ds) = ds

abbrev pub first_tasks : List Template → List DagTask
first_tasks [] = []
first_tasks (t ∷ ts) = tasks_of t.dag

abbrev pub entry_tasks : WorkflowTemplate → List DagTask
entry_tasks wft = first_tasks wft.templates

pub compile-entry_tasks :
    (env : Runtime) (awf : AgentWorkflow) (opts : CompilerOptions) (wft : WorkflowTemplate)
    → compile_to_argo_workflow_template env awf opts ≡ compiled wft
    → entry_tasks wft ≡ all_dag_tasks awf.spec.tasks
compile-entry_tasks env awf opts wft h =
    ap first_tasks (compile-Assembled env awf opts wft h).templates
