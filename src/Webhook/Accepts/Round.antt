-- ===== src/Webhook/Accepts/Round.antt =====
-- The checks of one round of the loop over the tasks.
use flokoa.Common.{
  ℕ, ◌+◌, ◌≡◌, ◌≢◌, refl, ◌↔◌, Bool, true, false, ◌&&◌, not, List, [], ◌∷◌, Text, is_empty, is_set,
  nonempty, contains, contains_iff, ◌==◌, ==_iff, All, Memᴰ, arith,
}
use flokoa.Api.Task.{ContainerTask, SwitchCase}
use flokoa.Api.Workflow.{WorkflowTask}
use flokoa.Webhook.Errors.{FieldPath, child, index, tasks_path}
use flokoa.Webhook.Tasks.{validate_agent_call, validate_container_task, validate_http_task}
use flokoa.Webhook.Validate.{type_count, validate_depends_on, validate_switch, validate_task}
use flokoa.Webhook.Conforms.{ValidAgentCall, ValidHttpTask, EmptyOr, ValidSwitchCase, ValidTask}
use flokoa.Webhook.Accepts.Lists.{append_iff, error_if_iff, iff_trans, if_set_iff, count_iff}
use flokoa.Webhook.Accepts.Tasks.{
  validate_agent_call_iff, validate_container_task_iff, validate_http_task_iff,
}
use flokoa.Webhook.Accepts.Texts.{validate_expressions_iff}

not-contains_iff : (t : Text) (xs : List Text) → (not (contains t xs) ≡ false) ↔ Memᴰ t xs
not-contains_iff t xs = ground (arith, contains_iff t xs)

pub contains-false_iff : (t : Text) (xs : List Text) → (contains t xs ≡ false) ↔ (¬ Memᴰ t xs)
contains-false_iff t xs = (
  λ h m. cc (h, (contains_iff t xs).1 m),
  λ h. not_true (contains t xs) (λ e. h ((contains_iff t xs).0 e)),
)
  where
    not_true : (b : Bool) → ¬ (b ≡ true) → b ≡ false
    not_true true k = absurd (k refl)
    not_true false k = refl

==_false_iff : (s t : Text) → ((s == t) ≡ false) ↔ (s ≢ t)
==_false_iff s t = ground (arith, ==_iff s t)

validate_depends_on_iff :
    (path : FieldPath) (name : Text) (names : List Text) (j : ℕ) (deps : List Text)
    → (validate_depends_on path name names j deps ≡ []) ↔ All (λ d. Memᴰ d names × (d ≢ name)) deps
unfolding validate_depends_on
validate_depends_on_iff path name names j [] = (λ _. tt, λ _. refl)
validate_depends_on_iff path name names j (d ∷ ds) =
    iff_trans
      (append_iff (iff_trans (error_if_iff _ _) (not-contains_iff d names)) (
        append_iff (iff_trans (error_if_iff _ _) (==_false_iff d name))
          (validate_depends_on_iff path name names (j + 1) ds)))
      (λ (a, (b, c)). ((a, b), c), λ ((a, b), c). (a, (b, c)))

EmptyOr-iff :
    (names : List Text) (t : Text)
    → ((not (is_empty t) && not (contains t names)) ≡ false) ↔ EmptyOr names t
EmptyOr-iff names [] = (λ _. tt, λ _. refl)
EmptyOr-iff names (c ∷ t) = not-contains_iff (c ∷ t) names

validate_switch_iff :
    (path : FieldPath) (names : List Text) (j : ℕ) (scs : List SwitchCase)
    → (validate_switch path names j scs ≡ []) ↔ All (ValidSwitchCase names) scs
unfolding validate_switch
validate_switch_iff path names j [] = (λ _. tt, λ _. refl)
validate_switch_iff path names j (sc ∷ scs) =
    iff_trans
      (append_iff (iff_trans (error_if_iff _ _) (EmptyOr-iff names sc.then_task)) (
        append_iff (iff_trans (error_if_iff _ _) (EmptyOr-iff names sc.default_task))
          (validate_switch_iff path names (j + 1) scs)))
      (
        λ (a, (b, c)). (record { then_task = a; default_task = b }, c),
        λ (v, c). (v.then_task, (v.default_task, c)),
      )

module _ (names params : List Text) where
  pub validate_task_iff :
      (seen : List Text) (i : ℕ) (t : WorkflowTask)
      → (validate_task names params seen i t ≡ [])
        ↔ ((¬ Memᴰ t.name seen) × ValidTask names params t)
  unfolding validate_task
  validate_task_iff seen i t =
      let path = index tasks_path i in
      let kinds =
        count_iff (type_count t)
          (is_set t.agent
            ∷ is_set t.agent_task
            ∷ is_set t.container
            ∷ is_set t.http
            ∷ nonempty t.switch
            ∷ [])
          (omega arith) in
      iff_trans
        (append_iff (iff_trans (error_if_iff _ _) (contains-false_iff t.name seen)) (
          append_iff (error_if_iff _ _) (
            append_iff (error_if_iff _ _) (
              append_iff
                (if_set_iff (λ a. validate_agent_call (child path "agent") a) ValidAgentCall t.agent
                  (validate_agent_call_iff (child path "agent")))
                (append_iff
                  (if_set_iff (λ c. validate_container_task (child path "container") c)
                    (λ (c : ContainerTask). c.image ≢ []) t.container
                    (validate_container_task_iff (child path "container")))
                  (append_iff
                    (if_set_iff (λ h. validate_http_task (child path "http") h) ValidHttpTask t.http
                      (validate_http_task_iff (child path "http")))
                    (append_iff (validate_depends_on_iff path t.name names 0 t.depends_on) (
                      append_iff (validate_switch_iff path names 0 t.switch)
                        (validate_expressions_iff names params path t)))))))))
        (
          λ (new, (none_, (two, (a, (c, (h, (d, (s, e)))))))). (
            new,
            record {
              kind = kinds.0 (none_, two);
              agent = a;
              container = c;
              http = h;
              depends_on = d;
              switch = s;
              expressions = e;
            },
          ),
          λ (new, v). (
            new,
            (
              (kinds.1 v.kind).0,
              (
                (kinds.1 v.kind).1,
                (v.agent, (v.container, (v.http, (v.depends_on, (v.switch, v.expressions))))),
              ),
            ),
          ),
        )
