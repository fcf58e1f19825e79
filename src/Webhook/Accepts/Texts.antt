-- ===== src/Webhook/Accepts/Texts.antt =====
-- The checks of the expressions of one task.
use flokoa.Common.{
  ℕ, ◌+◌, ◌≡◌, refl, ◌↔◌, Bool, true, false, not, List, [], ◌∷◌, ◌++◌, Option, none, some, Text,
  trim_space, All, append_assoc,
}
use flokoa.Api.Message.{TextPart, MessagePart, AgentMessage, AgentCall}
use flokoa.Api.Task.{AgentTask, EnvVar, ContainerTask, HttpHeader, HttpTask, SwitchCase}
use flokoa.Api.Workflow.{WorkflowTask}
use flokoa.Expression.{pieces, matches}
use flokoa.Expression.Reference.{Resolves}
use flokoa.Webhook.Errors.{FieldPath, child, index}
use flokoa.Webhook.Expressions.{
  is_valid_expression, ExprField, field_of, part_fields, agent_fields, agent_task_fields,
  env_fields, header_fields, container_fields, http_fields, switch_fields, check_matches,
  check_fields, validate_expressions,
}
use flokoa.Webhook.Expressions.Valid.{is_valid_expression_iff}
use flokoa.Webhook.Conforms.{IfSet, ValidText, part_texts, message_texts, ValidTexts}
use flokoa.Webhook.Accepts.Lists.{append_iff, error_if_iff, iff_trans}

not-false_iff : (b : Bool) → (not b ≡ false) ↔ (b ≡ true)
not-false_iff true = (λ h. refl, λ h. refl)
not-false_iff false = (λ h. cc, λ h. cc)

check_fields-append :
    (xs ys : List ExprField) (names params : List Text)
    → check_fields (xs ++ ys) names params
      ≡ check_fields xs names params ++ check_fields ys names params
unfolding check_fields
check_fields-append [] ys names params = refl
check_fields-append (x ∷ xs) ys names params =
    simp (check_fields-append xs ys names params, append_assoc)

module _ (names params : List Text) where
  check_matches_iff :
      (path : FieldPath) (ms : List Text)
      → (check_matches path names params ms ≡ [])
        ↔ All (λ inner. Resolves names params (trim_space inner)) ms
  unfolding check_matches
  check_matches_iff path [] = (λ _. tt, λ _. refl)
  check_matches_iff path (inner ∷ ms) =
      append_iff
        (iff_trans (error_if_iff _ _) (
          iff_trans (not-false_iff (is_valid_expression (trim_space inner) names params))
            (is_valid_expression_iff (trim_space inner) names params)))
        (check_matches_iff path ms)

  -- The fields in the list have only valid texts.
  abbrev Checked : List ExprField → Type 0
  Checked fs = check_fields fs names params ≡ []

  split_fields :
      (xs ys : List ExprField) {P Q : Type 0}
      → Checked xs ↔ P
      → Checked ys ↔ Q
      → Checked (xs ++ ys) ↔ (P × Q)
  split_fields xs ys p q = rw (check_fields-append xs ys names params) (append_iff p q)

  one_field : (f : ExprField) → Checked (f ∷ []) ↔ ValidText names params f.value
  unfolding check_fields
  one_field f =
      iff_trans
        (append_iff {Q = Unit {0}} (check_matches_iff f.path (matches (pieces f.value)))
          (λ _. tt, λ _. refl))
        (λ (a, _). a, λ a. (a, tt))

  field_of_iff :
      (path : FieldPath) (text : Text) → Checked (field_of path text) ↔ ValidText names params text
  unfolding check_fields pieces
  field_of_iff path [] = (λ _. tt, λ _. refl)
  field_of_iff path (c ∷ t) = one_field (record { path = path; value = c ∷ t })

  no_fields : Checked [] ↔ Unit {0}
  unfolding check_fields
  no_fields = (λ _. tt, λ _. refl)

  abbrev Valid : Text → Type 0
  Valid = ValidText names params

  part_fields_iff :
      (path : FieldPath) (i : ℕ) (ps : List MessagePart)
      → Checked (part_fields path i ps) ↔ All Valid (part_texts ps)
  part_fields_iff path i [] = no_fields
  part_fields_iff path i (p ∷ ps) = here p.text (part_fields_iff path (i + 1) ps)
    where
      here :
          (o : Option TextPart)
          → Checked (part_fields path (i + 1) ps) ↔ All Valid (part_texts ps)
          → Checked (
              elim o [
                | none ↦ []
                | some t ↦
                    record {
                      path =
                          child
                            (child (index (child (child path "message") "parts") i) "text")
                            "text";
                      value = t.text;
                    }
                    ∷ []
              ]
              ++ part_fields path (i + 1) ps)
            ↔ All Valid (elim o [ none ↦ part_texts ps | some t ↦ t.text ∷ part_texts ps ])
      here none rest = rest
      here (some t) rest = split_fields (_ ∷ []) _ (one_field _) rest

  agent_fields_iff :
      (path : FieldPath) (o : Option AgentCall)
      → Checked (agent_fields path o) ↔ (
          IfSet (λ (a : AgentCall). Valid a.text) o
          × IfSet (λ (a : AgentCall). All Valid (message_texts a.message)) o)
  agent_fields_iff path none = iff_trans no_fields (λ _. (tt, tt), λ _. tt)
  agent_fields_iff path (some a) = split_fields _ _ (field_of_iff _ a.text) (message_part a.message)
    where
      message_part :
          (m : Option AgentMessage)
          → Checked (elim m [ none ↦ [] | some x ↦ part_fields (child path "agent") 0 x.parts ])
            ↔ All Valid (message_texts m)
      message_part none = no_fields
      message_part (some x) = part_fields_iff (child path "agent") 0 x.parts

  agent_task_fields_iff :
      (path : FieldPath) (o : Option AgentTask)
      → Checked (agent_task_fields path o) ↔ IfSet (λ (a : AgentTask). Valid a.input) o
  agent_task_fields_iff path none = no_fields
  agent_task_fields_iff path (some t) = one_field _

  env_fields_iff :
      (path : FieldPath) (i : ℕ) (es : List EnvVar)
      → Checked (env_fields path i es) ↔ All (λ e. Valid e.value) es
  env_fields_iff path i [] = no_fields
  env_fields_iff path i (e ∷ es) =
      split_fields _ _ (field_of_iff _ e.value) (env_fields_iff path (i + 1) es)

  container_fields_iff :
      (path : FieldPath) (o : Option ContainerTask)
      → Checked (container_fields path o)
        ↔ IfSet (λ (c : ContainerTask). All (λ e. Valid e.value) c.env) o
  container_fields_iff path none = no_fields
  container_fields_iff path (some c) = env_fields_iff path 0 c.env

  header_fields_iff :
      (path : FieldPath) (i : ℕ) (hs : List HttpHeader)
      → Checked (header_fields path i hs) ↔ All (λ h. Valid h.value) hs
  header_fields_iff path i [] = no_fields
  header_fields_iff path i (h ∷ hs) =
      split_fields _ _ (field_of_iff _ h.value) (header_fields_iff path (i + 1) hs)

  http_fields_iff :
      (path : FieldPath) (o : Option HttpTask)
      → Checked (http_fields path o) ↔ (
          IfSet (λ (h : HttpTask). Valid h.url) o
          × (IfSet (λ (h : HttpTask). Valid h.body) o
              × IfSet (λ (h : HttpTask). All (λ x. Valid x.value) h.headers) o))
  http_fields_iff path none = iff_trans no_fields (λ _. (tt, (tt, tt)), λ _. tt)
  http_fields_iff path (some h) =
      split_fields _ _ (field_of_iff _ h.url)
        (split_fields _ _ (field_of_iff _ h.body) (header_fields_iff path 0 h.headers))

  switch_fields_iff :
      (path : FieldPath) (i : ℕ) (scs : List SwitchCase)
      → Checked (switch_fields path i scs) ↔ All (λ sc. Valid sc.condition) scs
  switch_fields_iff path i [] = no_fields
  switch_fields_iff path i (sc ∷ scs) =
      split_fields _ _ (field_of_iff _ sc.condition) (switch_fields_iff path (i + 1) scs)

  pub validate_expressions_iff :
      (path : FieldPath) (t : WorkflowTask)
      → (validate_expressions path t names params ≡ []) ↔ ValidTexts (ValidText names params) t
  unfolding validate_expressions
  validate_expressions_iff path t =
      iff_trans
        (split_fields _ _ (agent_fields_iff path t.agent) (
          split_fields _ _ (agent_task_fields_iff path t.agent_task) (
            split_fields _ _ (container_fields_iff path t.container) (
              split_fields _ _ (http_fields_iff path t.http) (
                split_fields _ _ (field_of_iff _ t.condition)
                  (switch_fields_iff path 0 t.switch))))))
        (
          λ ((a, m), (i, (e, ((u, (b, h)), (c, s))))). record {
            agent_text = a;
            agent_message = m;
            input = i;
            env = e;
            url = u;
            body = b;
            headers = h;
            condition = c;
            switch = s;
          },
          λ v. (
            (v.agent_text, v.agent_message),
            (v.input, (v.env, ((v.url, (v.body, v.headers)), (v.condition, v.switch)))),
          ),
        )
