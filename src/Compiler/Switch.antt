-- ===== src/Compiler/Switch.antt =====
-- The branches of a switch in the compiled DAG.
use mathlib.Core.List.Memᴰ
use flokoa.Common.{
  ◌≡◌, refl, sym, subst, ◌≢◌, ◌⊎◌, inl, inr, false, List, [], ◌∷◌, ◌++◌, Memᴰ, Memᴰ-cons, Memᴰ-nil,
  Text, is_empty,
}
use flokoa.Api.Task.{SwitchCase}
use flokoa.Api.Workflow.{WorkflowTask, AgentWorkflow}
use flokoa.Compiler.Argo.{DagTask, WorkflowTemplate}
use flokoa.Compiler.Json.{Runtime}
use flokoa.Compiler.Expressions.{translate_condition_expr}
use flokoa.Compiler.Templates.{CompilerOptions}
use flokoa.Compiler.Workflow.{
  compiled, branch_name, then_branch, default_branch, build_switch_dag_tasks, dag_task,
  dag_tasks_of, compile_to_argo_workflow_template,
}
use flokoa.Compiler.Succeeds.{all_dag_tasks}
use flokoa.Compiler.Assembled.{entry_tasks, compile-entry_tasks}

-- The DAG task of a branch: it runs the target's template after the switch, if `when` holds.
abbrev pub branch : Text → Text → Text → DagTask
branch name target when = record {
  name = branch_name name target;
  template = target;
  dependencies = name ∷ [];
  when = when;
}

filled : (t : Text) → t ≢ [] → is_empty t ≡ false
filled [] h = absurd (h refl)
filled (c ∷ t) h = refl

mem_then :
    (name : Text) (sc : SwitchCase)
    → sc.then_task ≢ []
    → sc.condition ≢ []
    → Memᴰ (branch name sc.then_task (translate_condition_expr sc.condition)) (then_branch name sc)
mem_then name sc p q = rw (filled sc.then_task p, filled sc.condition q) (Memᴰ.head refl)

mem_default :
    (name : Text) (sc : SwitchCase)
    → sc.default_task ≢ []
    → Memᴰ (branch name sc.default_task []) (default_branch name sc)
mem_default name sc p = rw (filled sc.default_task p) (Memᴰ.head refl)

mem_switch :
    (name : Text) (scs : List SwitchCase) (sc : SwitchCase) (d : DagTask)
    → Memᴰ sc scs
    → Memᴰ d (then_branch name sc) ⊎ Memᴰ d (default_branch name sc)
    → Memᴰ d (build_switch_dag_tasks name scs)
unfolding build_switch_dag_tasks
mem_switch name [] sc d m b = absurd (Memᴰ-nil m)
mem_switch name (x ∷ xs) sc d m b = elim ((Memᴰ-cons sc x xs).0 m) [
  | inl same ↦
      here (subst (λ y. Memᴰ d (then_branch name y) ⊎ Memᴰ d (default_branch name y)) same b)
  | inr later ↦
      Memᴰ.append_right (then_branch name x)
        (Memᴰ.append_right (default_branch name x) (mem_switch name xs sc d later b))
]
  where
    here :
        Memᴰ d (then_branch name x) ⊎ Memᴰ d (default_branch name x)
        → Memᴰ d (then_branch name x ++ (default_branch name x ++ build_switch_dag_tasks name xs))
    here (inl t) = Memᴰ.append_left _ t
    here (inr t) = Memᴰ.append_right (then_branch name x) (Memᴰ.append_left _ t)

mem_all :
    (tasks : List WorkflowTask) (t : WorkflowTask) (d : DagTask)
    → Memᴰ t tasks
    → Memᴰ d (dag_tasks_of t)
    → Memᴰ d (all_dag_tasks tasks)
mem_all [] t d m b = absurd (Memᴰ-nil m)
mem_all (x ∷ xs) t d m b = elim ((Memᴰ-cons t x xs).0 m) [
  | inl same ↦ Memᴰ.append_left _ (subst (λ y. Memᴰ d (dag_tasks_of y)) same b)
  | inr later ↦ Memᴰ.append_right (dag_tasks_of x) (mem_all xs t d later b)
]

-- For a switch case of a task in a compiled workflow: where it has a target and a condition, the DAG
-- runs the target after the switch when the condition holds; where it has a default, the DAG runs that
-- after the switch without any condition, whether or not another case applies; and the DAG also runs
-- each task by itself, after its own dependencies and on its own condition.
pub compile-switch_branches :
    (env : Runtime) (wf : AgentWorkflow) (opts : CompilerOptions) (wft : WorkflowTemplate)
    (task : WorkflowTask) (sc : SwitchCase)
    → compile_to_argo_workflow_template env wf opts ≡ compiled wft
    → Memᴰ task wf.spec.tasks
    → Memᴰ sc task.switch
    → (sc.then_task ≢ []
        → sc.condition ≢ []
        → Memᴰ
            (branch task.name sc.then_task (translate_condition_expr sc.condition))
            (entry_tasks wft))
      × (sc.default_task ≢ [] → Memᴰ (branch task.name sc.default_task []) (entry_tasks wft))
      × ((s : WorkflowTask) → Memᴰ s wf.spec.tasks → Memᴰ (dag_task s) (entry_tasks wft))
compile-switch_branches env wf opts wft task sc h m c =
    let same = compile-entry_tasks env wf opts wft h in
    let in_dag =
      λ (s : WorkflowTask) (d : DagTask) (ms : Memᴰ s wf.spec.tasks) (md : Memᴰ d (dag_tasks_of s)).
        subst (Memᴰ d) (sym same) (mem_all wf.spec.tasks s d ms md) in
    (
      λ p q.
          in_dag task _ m
            (Memᴰ.tail (mem_switch task.name task.switch sc _ c (inl (mem_then task.name sc p q)))),
      λ p.
          in_dag task _ m (
            Memᴰ.tail (mem_switch task.name task.switch sc _ c (inr (mem_default task.name sc p)))),
      λ s ms. in_dag s (dag_task s) ms (Memᴰ.head refl),
    )
