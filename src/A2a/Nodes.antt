-- ===== src/A2a/Nodes.antt =====
-- The nodes of a compiled workflow, as the plugin tells them apart: by the name of their template.
use flokoa.Common.{
  ◌≡◌, ◌≢◌, sym, ap, subst, ◌∙◌, none, [], ◌++◌, length, length-append, Memᴰ, Text, codes, arith,
}
use flokoa.Api.Task.{SwitchCase}
use flokoa.Api.Workflow.{WorkflowTask, AgentWorkflow}
use flokoa.Compiler.Argo.{DagTask, WorkflowTemplate}
use flokoa.Compiler.Expressions.{translate_condition_expr}
use flokoa.Compiler.Json.{Runtime}
use flokoa.Compiler.Templates.{CompilerOptions}
use flokoa.Compiler.Workflow.{compiled, compile_to_argo_workflow_template, dag_task}
use flokoa.Compiler.Assembled.{entry_tasks}
use flokoa.Compiler.Switch.{branch, compile-switch_branches}
use flokoa.A2a.Spec.{Decoder}
use flokoa.A2a.Store.{Codec, task_key, load}
use flokoa.A2a.Execute.{World, Plugin, Arguments, execute_template}
use flokoa.A2a.Execute.Life.{execute_template-Calls}

branch-ne-target : (a b : Text) → (a ++ (codes "-" ++ b)) ≢ b
branch-ne-target a b e = absurd (omega (arith, ap length e, length-append a (codes "-" ++ b)))

-- Two nodes of a workflow of which the plugin takes one for the other: while it has the task of one,
-- a call for the other sends nothing.
pub record Confused (b d : DagTask) : Type 0 where
  pub names_differ : b.name ≢ d.name
  pub same_template : b.template ≡ d.template
  pub sends_nothing :
      (decoder : Decoder) (codec : Codec) (w : World) (p : Plugin) (args : Arguments)
      → args.template_name ≡ d.template
      → load (task_key args.workflow_uid b.template) p.tasks ≢ none
      → (execute_template decoder codec w p args).1.outbox ≡ p.outbox

-- Where a switch case has a condition and as its target a task of the workflow, the compiled DAG has
-- two nodes for the target, the branch and the task by itself, and the plugin takes one for the other.
pub compile-Confused :
    (env : Runtime) (wf : AgentWorkflow) (opts : CompilerOptions) (wft : WorkflowTemplate)
    (task target : WorkflowTask) (sc : SwitchCase)
    → compile_to_argo_workflow_template env wf opts ≡ compiled wft
    → Memᴰ task wf.spec.tasks
    → Memᴰ sc task.switch
    → sc.then_task ≢ []
    → sc.condition ≢ []
    → Memᴰ target wf.spec.tasks
    → target.name ≡ sc.then_task
    → (let b = branch task.name sc.then_task (translate_condition_expr sc.condition) in
        Memᴰ b (entry_tasks wft)
        × Memᴰ (dag_task target) (entry_tasks wft)
        × Confused b (dag_task target))
compile-Confused env wf opts wft task target sc h m c filled conditional m' named =
    let (then_in, default_in, by_itself) = compile-switch_branches env wf opts wft task sc h m c in
    (
      then_in filled conditional,
      by_itself target m',
      record {
        names_differ = λ e. branch-ne-target task.name sc.then_task (e ∙ named);
        same_template = sym named;
        sends_nothing = λ decoder codec w p args at known.
            (execute_template-Calls decoder codec w p args).1 (
              subst (λ t. load (task_key args.workflow_uid t) p.tasks ≢ none) (sym named ∙ sym at)
                known);
      },
    )
