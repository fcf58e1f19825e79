-- ===== src/Webhook/Accepts/Whole.antt =====
-- The whole validation: per task, over the tasks, and with the search for cycles.
use flokoa.Common.{
  Distinct, ℕ, ◌+◌, ◌≡◌, ◌≢◌, refl, subst, ◌↔◌, ⊎_elim, false, not, List, [], ◌∷◌, map, none, Text,
  nonempty, All, Memᴰ, Memᴰ-cons, Memᴰ-nil,
}
use flokoa.Api.Workflow.{WorkflowTask, AgentWorkflow}
use flokoa.Webhook.Errors.{ErrorList, aggregate_errors}
use flokoa.Webhook.Cycles.{Outcome, finished, cycle, out_of_fuel, Colors, detect_dag_cycles}
use flokoa.Webhook.Cycles.Verdict.{
  OnCycle, detect_dag_cycles-finished_iff, detect_dag_cycles-ne-out_of_fuel,
}
use flokoa.Webhook.Cycles.Dependencies.{to_Leads, from_Leads}
use flokoa.Webhook.Validate.{
  validate_tasks, cycle_errors, task_names_of, param_names_of, workflow_errors,
  validate_agent_workflow,
}
use flokoa.Webhook.Conforms.{ValidTask, WellFormed}
use flokoa.Webhook.Accepts.Lists.{append_iff, error_if_iff, iff_trans}
use flokoa.Webhook.Accepts.Round.{validate_task_iff}

module _ (names params : List Text) where
  -- The names are new and differ from one another.
  abbrev Fresh : List Text → List WorkflowTask → Type 0
  Fresh seen ts =
      Distinct (map (λ t. t.name) ts) × ((n : Text) → Memᴰ n (map (λ t. t.name) ts) → ¬ Memᴰ n seen)

  Fresh-cons :
      (seen : List Text) (t : WorkflowTask) (ts : List WorkflowTask)
      → ((¬ Memᴰ t.name seen) × Fresh (t.name ∷ seen) ts) ↔ Fresh seen (t ∷ ts)
  Fresh-cons seen t ts = (
    λ (new, (d, f)). (
      (λ m. f t.name m (Memᴰ.head refl), d),
      λ n m.
          ⊎_elim (λ e old. new (subst (λ x. Memᴰ x seen) e old)) (λ r old. f n r (Memᴰ.tail old))
            ((Memᴰ-cons n t.name (map (λ s. s.name) ts)).0 m),
    ),
    λ ((here, d), f). (
      f t.name (Memᴰ.head refl),
      (
        d,
        λ n m old.
            ⊎_elim (λ e. here (subst (λ x. Memᴰ x (map (λ s. s.name) ts)) e m)) (f n (Memᴰ.tail m))
              ((Memᴰ-cons n t.name seen).0 old),
      ),
    ),
  )

  validate_tasks_iff :
      (seen : List Text) (i : ℕ) (ts : List WorkflowTask)
      → (validate_tasks names params seen i ts ≡ [])
        ↔ (Fresh seen ts × All (ValidTask names params) ts)
  unfolding validate_tasks
  validate_tasks_iff seen i [] = (λ _. ((tt, λ n m. absurd (Memᴰ-nil m)), tt), λ _. refl)
  validate_tasks_iff seen i (t ∷ ts) =
      iff_trans
        (append_iff (validate_task_iff names params seen i t)
          (validate_tasks_iff (t.name ∷ seen) (i + 1) ts))
        (
          λ ((new, v), (f, vs)). ((Fresh-cons seen t ts).0 (new, f), (v, vs)),
          λ (f, (v, vs)). let (new, rest) = (Fresh-cons seen t ts).1 f in ((new, v), (rest, vs)),
        )

cycle_errors_iff :
    (tasks : List WorkflowTask)
    → (cycle_errors (detect_dag_cycles tasks) ≡ []) ↔ ((d : Text) → ¬ OnCycle tasks d)
cycle_errors_iff tasks =
    iff_trans (go (detect_dag_cycles tasks) (detect_dag_cycles-ne-out_of_fuel tasks))
      (detect_dag_cycles-finished_iff tasks)
  where
    go : (r : Outcome) → r ≢ out_of_fuel → (cycle_errors r ≡ []) ↔ ((c : Colors) × (r ≡ finished c))
    go (finished c) ne = (λ _. (c, refl), λ _. refl)
    go (cycle d) ne = (λ h. cc, λ (c, e). cc)
    go out_of_fuel ne = absurd (ne refl)

nonempty_iff {ℓ} : {A : Type ℓ} (xs : List A) → (not (nonempty xs) ≡ false) ↔ (xs ≢ [])
nonempty_iff [] = (λ h. cc, λ h. absurd (h refl))
nonempty_iff (x ∷ xs) = (λ h e. cc, λ h. refl)

aggregate_errors_iff :
    (errs : ErrorList) (name : Text) → (aggregate_errors errs name ≡ none) ↔ (errs ≡ [])
unfolding aggregate_errors
aggregate_errors_iff [] name = (λ _. refl, λ _. refl)
aggregate_errors_iff (e ∷ errs) name = (λ h. cc, λ h. cc)

workflow_errors_iff : (wf : AgentWorkflow) → (workflow_errors wf ≡ []) ↔ WellFormed wf
unfolding workflow_errors
workflow_errors_iff wf =
    iff_trans
      (append_iff (iff_trans (error_if_iff _ _) (nonempty_iff wf.spec.tasks)) (
        append_iff (validate_tasks_iff (task_names_of wf) (param_names_of wf) [] 0 wf.spec.tasks)
          (cycle_errors_iff wf.spec.tasks)))
      (
        λ (ne, (((d, f), vs), acyclic)). record {
          tasks = ne;
          names = d;
          each = vs;
          acyclic = λ x l. acyclic x (from_Leads wf.spec.tasks d l);
        },
        λ w. (
          w.tasks,
          (
            ((w.names, λ n m. Memᴰ-nil), w.each),
            λ x walk. w.acyclic x (to_Leads wf.spec.tasks walk),
          ),
        ),
      )

-- `ValidateAgentWorkflow` returns nil exactly when the workflow is well formed: it has a task; the
-- names of its tasks differ; each task is of exactly one kind and what its kind holds is valid; every
-- dependency and switch target names a task, and no task depends on itself; every expression resolves;
-- and no chain of dependencies leads from a task back to it.
pub validate_agent_workflow-eq-none_iff :
    (wf : AgentWorkflow) → (validate_agent_workflow wf ≡ none) ↔ WellFormed wf
unfolding validate_agent_workflow
validate_agent_workflow-eq-none_iff wf =
    iff_trans (aggregate_errors_iff (workflow_errors wf) wf.name) (workflow_errors_iff wf)
