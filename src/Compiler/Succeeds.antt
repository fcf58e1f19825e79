-- ===== src/Compiler/Succeeds.antt =====
-- When the compilation returns a workflow template, and the outline of what it returns.
use flokoa.Common.{
  Pointwise, ◌≡◌, refl, ap, inl, inr, ◌≢◌, true, List, [], ◌∷◌, ◌++◌, Memᴰ, Option, none, some,
  Text, is_set, nonempty, All, Option-cases,
}
use flokoa.Api.Message.{AgentCall}
use flokoa.Api.Task.{AgentTask, ContainerTask, HttpTask, SwitchCase}
use flokoa.Api.Workflow.{WorkflowTask, AgentWorkflow}
use flokoa.Compiler.Argo.{DagTask, Template, WorkflowTemplate}
use flokoa.Compiler.Json.{Json, Runtime}
use flokoa.Compiler.Plugin.{build_agent_template, agent_template, plugin_data}
use flokoa.Compiler.Templates.{
  CompilerOptions, Built, built, failed, of_option, start_template, fill_template, build_template,
}
use flokoa.Compiler.Workflow.{
  Compiled, compiled, template_error, ◌>>=◌, in_task, dag_tasks_of, compile_tasks, assemble,
  compile_to_argo_workflow_template,
}
use flokoa.Compiler.Tasks.{TemplateOf}
use flokoa.Compiler.Tasks.Built.{OnBuilt, build_template-TemplateOf}
use flokoa.Webhook.Conforms.{ExactlyOne, ValidTask}
use flokoa.Webhook.Validate.{validate_create}
use flokoa.Webhook.Handlers.{validate_create-eq-none_iff}

-- json.Marshal has no error to report for the values that the compiler builds.
abbrev pub Marshals : Runtime → Type 0
Marshals env = (j : Json) → env.marshal j ≢ none

build_agent_template_built :
    (env : Runtime) (tmpl : Template) (a : AgentCall)
    → Marshals env
    → (t : Template) × (of_option (build_agent_template env tmpl a) ≡ built t)
unfolding build_agent_template
build_agent_template_built env tmpl a total =
    elim (Option-cases (env.marshal (plugin_data env a))) [
      | inl e ↦ absurd (total (plugin_data env a) e)
      | inr (json, e) ↦ (agent_template tmpl json, rw (e, build_agent_template))
    ]

fill_template_built :
    (env : Runtime) (opts : CompilerOptions) (tmpl : Template) (agent : Option AgentCall)
    (agent_task : Option AgentTask) (container : Option ContainerTask) (http : Option HttpTask)
    (switch : List SwitchCase)
    → Marshals env
    → is_set agent_task ≢ true
    → ExactlyOne
        (is_set agent ∷ is_set agent_task ∷ is_set container ∷ is_set http ∷ nonempty switch ∷ [])
    → (t : Template) × (fill_template env opts tmpl agent agent_task container http switch
        ≡ built t)
fill_template_built env opts tmpl (some a) at c h s total no_task one =
    build_agent_template_built env tmpl a total
fill_template_built env opts tmpl none (some t) c h s total no_task one = absurd (no_task refl)
fill_template_built env opts tmpl none none (some c) h s total no_task one = (_, refl)
fill_template_built env opts tmpl none none none (some h) s total no_task one = (_, refl)
fill_template_built env opts tmpl none none none none (sc ∷ scs) total no_task one = (_, refl)
fill_template_built env opts tmpl none none none none [] total no_task one = absurd one

-- The DAG tasks of all workflow tasks, in order.
abbrev pub all_dag_tasks : List WorkflowTask → List DagTask
all_dag_tasks [] = []
all_dag_tasks (task ∷ tasks) = dag_tasks_of task ++ all_dag_tasks tasks

module _ (env : Runtime) (awf : AgentWorkflow) (opts : CompilerOptions) where
  -- Each template is that of its task.
  abbrev pub Templates : List WorkflowTask → List Template → Type 0
  Templates = Pointwise (TemplateOf env awf)

  pub record Outline (tasks : List WorkflowTask) (parts : List Template × List DagTask)
      : Type 0 where
    pub templates : Templates tasks parts.0
    pub dag : parts.1 ≡ all_dag_tasks tasks

  -- What holds of the parts, if the loop over the tasks returns.
  abbrev pub OnCompiled :
      (List Template × List DagTask → Type 0) → Compiled (List Template × List DagTask) → Type 0
  OnCompiled P (compiled parts) = P parts
  OnCompiled P (template_error name e) = Unit

  Outline-cons :
      (task : WorkflowTask) (tasks : List WorkflowTask) (b : Built Template)
      (rest : Compiled (List Template × List DagTask))
      → OnBuilt (TemplateOf env awf task) b
      → OnCompiled (Outline tasks) rest
      → OnCompiled
          (Outline (task ∷ tasks))
          (in_task task.name b >>= λ t. rest >>= λ r. compiled (t ∷ r.0, dag_tasks_of task ++ r.1))
  Outline-cons task tasks (failed e) rest h k = tt
  Outline-cons task tasks (built t) (template_error n e) h k = tt
  Outline-cons task tasks (built t) (compiled r) h k = record {
    templates = (h, k.templates);
    dag = ap (λ d. dag_tasks_of task ++ d) k.dag;
  }

  pub compile_tasks-Outline :
      (tasks : List WorkflowTask) → OnCompiled (Outline tasks) (compile_tasks env awf opts tasks)
  unfolding compile_tasks build_template
  compile_tasks-Outline [] = record { templates = tt; dag = refl }
  compile_tasks-Outline (task ∷ tasks) =
      Outline-cons task tasks _ (compile_tasks env awf opts tasks)
        (build_template-TemplateOf env awf task opts) (compile_tasks-Outline tasks)

  compile_tasks_compiled :
      (names params : List Text) (tasks : List WorkflowTask)
      → Marshals env
      → ((t : WorkflowTask) → Memᴰ t tasks → is_set t.agent_task ≢ true)
      → All (ValidTask names params) tasks
      → (parts : List Template × List DagTask) × (compile_tasks env awf opts tasks ≡ compiled parts)
  unfolding compile_tasks build_template
  compile_tasks_compiled names params [] total free v = (([], []), refl)
  compile_tasks_compiled names params (task ∷ tasks) total free (v, vs) =
      let (t, e) =
        fill_template_built env opts (start_template env awf task) task.agent task.agent_task
          task.container task.http task.switch total (free task (Memᴰ.head refl)) v.kind in
      let (rest, e') =
        compile_tasks_compiled names params tasks total (λ s m. free s (Memᴰ.tail m)) vs in
      ((t ∷ rest.0, dag_tasks_of task ++ rest.1), rw (e, e', compile_tasks))

-- A workflow that `ValidateCreate` admits compiles, where json.Marshal reports no error.
pub compile-of_validate_create :
    (env : Runtime) (wf : AgentWorkflow) (opts : CompilerOptions)
    → Marshals env
    → validate_create wf ≡ none
    → (wft : WorkflowTemplate) × (compile_to_argo_workflow_template env wf opts ≡ compiled wft)
unfolding compile_to_argo_workflow_template
compile-of_validate_create env wf opts total admitted =
    let (free, formed) = (validate_create-eq-none_iff wf).0 admitted in
    let (parts, e) = compile_tasks_compiled env wf opts _ _ wf.spec.tasks total free formed.each in
    (assemble env wf opts parts.0 parts.1, rw (e, compile_to_argo_workflow_template))
