-- ===== src/Compiler/Closed.antt =====
-- The references of the compiled DAG, and the names of the templates.
use flokoa.Common.{
  Distinct, ◌≡◌, refl, sym, ap, subst, ◌∙◌, ◌↔◌, ◌⊎◌, inl, inr, true, false, List, [], ◌∷◌, map,
  Memᴰ, Memᴰ-cons, Memᴰ-nil, none, Text, is_empty, All, All-imp, mem-map-append_right, All-append,
  Bool-cases, ◌≢◌,
}
use flokoa.Api.Task.{SwitchCase}
use flokoa.Api.Workflow.{WorkflowTask, AgentWorkflow}
use flokoa.Compiler.Argo.{DagTask, Template, WorkflowTemplate}
use flokoa.Compiler.Json.{Runtime}
use flokoa.Compiler.Templates.{CompilerOptions}
use flokoa.Compiler.Workflow.{
  compiled, then_branch, default_branch, build_switch_dag_tasks, compile_to_argo_workflow_template,
  dag_entrypoint_name,
}
use flokoa.Compiler.Succeeds.{Templates, all_dag_tasks}
use flokoa.Webhook.Conforms.{EmptyOr, ValidSwitchCase, ValidTask}
use flokoa.Webhook.Validate.{validate_agent_workflow}
use flokoa.Webhook.Accepts.{validate_agent_workflow-eq-none_iff}
use flokoa.Compiler.Assembled.{first_tasks, compile-Assembled, entry_tasks}

pub record Refers (templates dag_names : List Text) (d : DagTask) : Type 0 where
  pub template : Memᴰ d.template templates
  pub dependencies : All (λ n. Memᴰ n dag_names) d.dependencies

names_of_Templates :
    (env : Runtime) (awf : AgentWorkflow) (opts : CompilerOptions) (tasks : List WorkflowTask)
    (ts : List Template)
    → Templates env awf opts tasks ts
    → map (λ t. t.name) ts ≡ map (λ t. t.name) tasks
names_of_Templates env awf opts [] [] h = refl
names_of_Templates env awf opts (task ∷ tasks) (t ∷ ts) (h, hs) =
    cc (h.name, names_of_Templates env awf opts tasks ts hs)
names_of_Templates env awf opts [] (t ∷ ts) h = absurd h
names_of_Templates env awf opts (task ∷ tasks) [] h = absurd h

mem-dag_names :
    (tasks : List WorkflowTask) (n : Text)
    → Memᴰ n (map (λ t. t.name) tasks)
    → Memᴰ n (map (λ d. d.name) (all_dag_tasks tasks))
mem-dag_names [] n m = absurd (Memᴰ-nil m)
mem-dag_names (t ∷ ts) n m = elim ((Memᴰ-cons n t.name (map (λ s. s.name) ts)).0 m) [
  | inl e ↦ Memᴰ.head e
  | inr r ↦ Memᴰ.tail (
      mem-map-append_right (λ d. d.name) n (build_switch_dag_tasks t.name t.switch)
        (all_dag_tasks ts) (mem-dag_names ts n r))
]

module _ (names : List Text) where
  mem_of_EmptyOr : (t : Text) → is_empty t ≡ false → EmptyOr names t → Memᴰ t names
  mem_of_EmptyOr [] e h = cc
  mem_of_EmptyOr (c ∷ t) e h = h

  switch-Refers :
      (name : Text) (scs : List SwitchCase)
      → Memᴰ name names
      → All (ValidSwitchCase names) scs
      → All (Refers names names) (build_switch_dag_tasks name scs)
  unfolding build_switch_dag_tasks
  switch-Refers name [] m v = tt
  switch-Refers name (sc ∷ scs) m (v, vs) =
      All-append (Refers names names) (then_branch name sc) _
        (thens (Bool-cases (is_empty sc.then_task)) (Bool-cases (is_empty sc.condition)))
        (All-append (Refers names names) (default_branch name sc) _
          (defaults (Bool-cases (is_empty sc.default_task))) (switch-Refers name scs m vs))
    where
      thens :
          (is_empty sc.then_task ≡ true) ⊎ (is_empty sc.then_task ≡ false)
          → (is_empty sc.condition ≡ true) ⊎ (is_empty sc.condition ≡ false)
          → All (Refers names names) (then_branch name sc)
      thens (inl e) c = rw e tt
      thens (inr e) (inl c) = rw (e, c) tt
      thens (inr e) (inr c) =
          rw (e, c)
            (
              record {
                template = mem_of_EmptyOr sc.then_task e v.then_task;
                dependencies = (m, tt);
              },
              tt,
            )

      defaults :
          (is_empty sc.default_task ≡ true) ⊎ (is_empty sc.default_task ≡ false)
          → All (Refers names names) (default_branch name sc)
      defaults (inl e) = rw e tt
      defaults (inr e) = rw e (
        record {
          template = mem_of_EmptyOr sc.default_task e v.default_task;
          dependencies = (m, tt);
        },
        tt,
      )

  deps-mem :
      (name : Text) (deps : List Text)
      → All (λ d. Memᴰ d names × (d ≢ name)) deps
      → All (λ d. Memᴰ d names) deps
  deps-mem name [] v = tt
  deps-mem name (d ∷ ds) (v, vs) = (v.0, deps-mem name ds vs)

  dag_tasks-Refers :
      (params : List Text) (tasks : List WorkflowTask)
      → ((n : Text) → Memᴰ n (map (λ t. t.name) tasks) → Memᴰ n names)
      → All (ValidTask names params) tasks
      → All (Refers names names) (all_dag_tasks tasks)
  dag_tasks-Refers params [] sub v = tt
  dag_tasks-Refers params (t ∷ ts) sub (v, vs) = (
    record {
      template = sub t.name (Memᴰ.head refl);
      dependencies = deps-mem t.name t.depends_on v.depends_on;
    },
    All-append (Refers names names) (build_switch_dag_tasks t.name t.switch) _
        (switch-Refers t.name t.switch (sub t.name (Memᴰ.head refl)) v.switch)
        (dag_tasks-Refers params ts (λ n m. sub n (Memᴰ.tail m)) vs),
  )

-- In the compilation of a workflow that `ValidateAgentWorkflow` accepts, every task of the DAG, the
-- branches of the switches included, names a template that is there and depends only on tasks of the
-- DAG.
pub compile-Refers :
    (env : Runtime) (wf : AgentWorkflow) (opts : CompilerOptions) (wft : WorkflowTemplate)
    → validate_agent_workflow wf ≡ none
    → compile_to_argo_workflow_template env wf opts ≡ compiled wft
    → All
        (Refers (map (λ t. t.name) wft.templates) (map (λ d. d.name) (entry_tasks wft)))
        (entry_tasks wft)
compile-Refers env wf opts wft accepted h =
    let c = compile-Assembled env wf opts wft h in
    let formed = (validate_agent_workflow-eq-none_iff wf).0 accepted in
    let names = map (λ t. t.name) wf.spec.tasks in
    let dag = all_dag_tasks wf.spec.tasks in
    let same = names_of_Templates env wf opts wf.spec.tasks c.rest c.each in
    subst
      (λ ts.
        All (Refers (map (λ t. t.name) ts) (map (λ d. d.name) (first_tasks ts))) (first_tasks ts))
      (sym c.templates)
      (All-imp (Refers names names)
        (Refers (dag_entrypoint_name ∷ map (λ t. t.name) c.rest) (map (λ d. d.name) dag)) dag
        (λ d r. record {
          template = Memᴰ.tail (subst (λ ns. Memᴰ d.template ns) (sym same) r.template);
          dependencies =
              All-imp (λ n. Memᴰ n names) (λ n. Memᴰ n (map (λ x. x.name) dag)) d.dependencies
                (mem-dag_names wf.spec.tasks) r.dependencies;
        })
        (dag_tasks-Refers names (map (λ p. p.name) wf.spec.params) wf.spec.tasks (λ n m. m)
          formed.each))

-- The compilation of a workflow that `ValidateAgentWorkflow` accepts has templates of distinct names
-- exactly when no task has the name of the entry point, "main".
pub compile-distinct_names_iff :
    (env : Runtime) (wf : AgentWorkflow) (opts : CompilerOptions) (wft : WorkflowTemplate)
    → validate_agent_workflow wf ≡ none
    → compile_to_argo_workflow_template env wf opts ≡ compiled wft
    → Distinct (map (λ t. t.name) wft.templates)
      ↔ (¬ Memᴰ dag_entrypoint_name (map (λ t. t.name) wf.spec.tasks))
compile-distinct_names_iff env wf opts wft accepted h =
    let c = compile-Assembled env wf opts wft h in
    let formed = (validate_agent_workflow-eq-none_iff wf).0 accepted in
    let names : map (λ t. t.name) wft.templates
        ≡ dag_entrypoint_name ∷ map (λ t. t.name) wf.spec.tasks =
      ap (map (λ t. t.name)) c.templates
      ∙ ap (λ ns. dag_entrypoint_name ∷ ns)
          (names_of_Templates env wf opts wf.spec.tasks c.rest c.each) in
    (λ d. (subst Distinct names d).0, λ fresh. subst Distinct (sym names) (fresh, formed.names))
