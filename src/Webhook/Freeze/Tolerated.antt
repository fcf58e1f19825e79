-- ===== src/Webhook/Freeze/Tolerated.antt =====
-- Which agentTask uses the freeze lets pass.
use flokoa.Common.{
  ℕ, ◌+◌, ◌≡◌, refl, sym, ap, ◌∙◌, ◌↔◌, inl, inr, ⊎_elim, Bool, true, false, ◌&&◌, not, List, [],
  ◌∷◌, Memᴰ, Memᴰ-cons, Memᴰ-nil, Option, none, some, Text, is_set, contains, contains_iff,
  if◌then◌else◌, Bool-cases, arith, append-eq-nil,
}
use flokoa.Api.Workflow.{WorkflowTask, AgentWorkflow}
use flokoa.Webhook.Errors.{FieldError, error_if}
use flokoa.Webhook.Freeze.{
  agent_task_names, old_agent_tasks, freeze_tasks, validate_agent_task_freeze,
}

-- The list has an agentTask of this name.
abbrev pub HasAgentTask : List WorkflowTask → Text → Type 0
HasAgentTask tasks name =
    (s : WorkflowTask) × Memᴰ s tasks × (s.name ≡ name) × (is_set s.agent_task ≡ true)

-- The old object has one.
abbrev pub Tolerated : Option AgentWorkflow → Text → Type 0
Tolerated none name = ⊥
Tolerated (some old) name = HasAgentTask old.spec.tasks name

HasAgentTask-tail :
    {t : WorkflowTask} {ts : List WorkflowTask} {name : Text}
    → HasAgentTask ts name
    → HasAgentTask (t ∷ ts) name
HasAgentTask-tail (s, m, e, u) = (s, Memᴰ.tail m, e, u)

agent_task_names_iff :
    (tasks : List WorkflowTask) (name : Text)
    → Memᴰ name (agent_task_names tasks) ↔ HasAgentTask tasks name
unfolding agent_task_names
agent_task_names_iff [] name = (λ m. absurd (Memᴰ-nil m), λ (s, m, _, _). absurd (Memᴰ-nil m))
agent_task_names_iff (t ∷ ts) name = elim (Bool-cases (is_set t.agent_task)) [
  | inl uses ↦
      rw (uses, if◌then◌else◌)
        (
          λ m.
              ⊎_elim (λ e. (t, Memᴰ.head refl, sym e, uses))
                (λ m. HasAgentTask-tail ((agent_task_names_iff ts name).0 m))
                ((Memᴰ-cons name t.name (agent_task_names ts)).0 m),
          λ (s, m, e, u).
              ⊎_elim (λ same. Memᴰ.head (sym e ∙ ap (λ x. x.name) same))
                (λ r. Memᴰ.tail ((agent_task_names_iff ts name).1 (s, r, e, u)))
                ((Memᴰ-cons s t ts).0 m),
        )
  | inr free ↦
      rw (free, if◌then◌else◌)
        (
          λ m. HasAgentTask-tail ((agent_task_names_iff ts name).0 m),
          λ (s, m, e, u).
              ⊎_elim (λ same. cc (free, u, ap (λ x. is_set x.agent_task) same))
                (λ r. (agent_task_names_iff ts name).1 (s, r, e, u)) ((Memᴰ-cons s t ts).0 m),
        )
]

old_agent_tasks_iff :
    (old : Option AgentWorkflow) (name : Text)
    → Memᴰ name (old_agent_tasks old) ↔ Tolerated old name
old_agent_tasks_iff none name = (λ m. Memᴰ-nil m, λ h. absurd h)
old_agent_tasks_iff (some old) name = agent_task_names_iff old.spec.tasks name

error_if-nil_iff : (b : Bool) (e : FieldError) → (error_if b e ≡ []) ↔ (b ≡ false)
error_if-nil_iff true e = (λ h. cc, λ h. cc)
error_if-nil_iff false e = (λ h. refl, λ h. refl)

tolerates_iff :
    (uses : Bool) (name : Text) (old : List Text)
    → ((uses && not (contains name old)) ≡ false) ↔ (uses ≡ true → Memᴰ name old)
tolerates_iff true name old = elim (Bool-cases (contains name old)) [
  | inl e ↦ (λ h _. (contains_iff name old).0 e, λ h. ground arith)
  | inr e ↦ (λ h. absurd (ground arith), λ h. cc ((contains_iff name old).1 (h refl)))
]
tolerates_iff false name old = (λ h e. cc, λ h. refl)

freeze_tasks_iff :
    (old : List Text) (i : ℕ) (tasks : List WorkflowTask)
    → (freeze_tasks old i tasks ≡ [])
      ↔ ((t : WorkflowTask) → Memᴰ t tasks → is_set t.agent_task ≡ true → Memᴰ t.name old)
unfolding freeze_tasks
freeze_tasks_iff old i [] = (λ _ t m. absurd (Memᴰ-nil m), λ _. refl)
freeze_tasks_iff old i (t ∷ ts) =
    let parts =
      append-eq-nil (error_if (is_set t.agent_task && not (contains t.name old)) _)
        (freeze_tasks old (i + 1) ts) in
    let here = tolerates_iff (is_set t.agent_task) t.name old in
    let rest = freeze_tasks_iff old (i + 1) ts in
    (
      λ h s m.
          ⊎_elim (λ e. rw e (here.0 ((error_if-nil_iff _ _).0 (parts.0 h).0)))
            (rest.0 (parts.0 h).1 s) ((Memᴰ-cons s t ts).0 m),
      λ h. parts.1 (
        (error_if-nil_iff _ _).1 (here.1 (h t (Memᴰ.head refl))),
        rest.1 (λ s m. h s (Memᴰ.tail m)),
      ),
    )

-- The freeze lets a workflow pass exactly when each of its tasks that uses agentTask has the name of a
-- task that uses agentTask in the old object; on creation there is no old object.
pub validate_agent_task_freeze_iff :
    (wf : AgentWorkflow) (old : Option AgentWorkflow)
    → (validate_agent_task_freeze wf old ≡ []) ↔ (
        (t : WorkflowTask)
        → Memᴰ t wf.spec.tasks
        → is_set t.agent_task ≡ true
        → Tolerated old t.name)
unfolding validate_agent_task_freeze
validate_agent_task_freeze_iff wf old =
    let all = freeze_tasks_iff (old_agent_tasks old) 0 wf.spec.tasks in
    (
      λ h t m u. (old_agent_tasks_iff old t.name).0 (all.0 h t m u),
      λ h. all.1 (λ t m u. (old_agent_tasks_iff old t.name).1 (h t m u)),
    )
