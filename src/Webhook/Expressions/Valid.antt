-- ===== src/Webhook/Expressions/Valid.antt =====
-- isValidExpression against the references as data.
use flokoa.Common.{
  ◌≡◌, refl, sym, ◌∙◌, ap, subst, ◌↔◌, inl, inr, true, List, ◌∷◌, ◌++◌, some, Memᴰ, Text, codes,
  ◌==◌, ==_iff, contains, contains_iff, has_prefix, trim_prefix, split_dot, NoDot,
  trim_prefix-append, append-trim_prefix, split_dot_sound, split_dot-append, Bool-cases,
  Option-cases, arith,
}
use flokoa.Expression.Reference.{
  Reference, eval, param, output, artifact, output_field, spell, Known, Resolves,
}
use flokoa.Webhook.Expressions.{valid_suffix, valid_task_ref, is_valid_expression}

module _ (task_names param_names : List Text) where
  valid_task_ref_parts :
      (t suffix : Text)
      → valid_task_ref task_names (some (t, suffix)) ≡ true
      → (contains t task_names ≡ true) × (valid_suffix suffix ≡ true)
  valid_task_ref_parts t suffix h = ground arith

  suffix-Resolves :
      (e t suffix : Text)
      → (codes "tasks." ++ (t ++ b'.' ∷ suffix)) ≡ e
      → NoDot t
      → Memᴰ t task_names
      → valid_suffix suffix ≡ true
      → Resolves task_names param_names e
  suffix-Resolves e t suffix spelt nodot m v = elim (Bool-cases (suffix == codes "output")) [
    | inl o ↦ (
      output t,
      ap (λ x. codes "tasks." ++ (t ++ b'.' ∷ x)) (sym ((==_iff suffix _).0 o)) ∙ spelt,
      (nodot, m),
    )
    | inr no_output ↦ elim (Bool-cases (suffix == codes "artifact")) [
      | inl a ↦ (
        artifact t,
        ap (λ x. codes "tasks." ++ (t ++ b'.' ∷ x)) (sym ((==_iff suffix _).0 a)) ∙ spelt,
        (nodot, m),
      )
      | inr no_artifact ↦
          let pre : has_prefix suffix (codes "output.") ≡ true = ground arith in
          (
            output_field t (trim_prefix suffix (codes "output.")),
            ap (λ x. codes "tasks." ++ (t ++ b'.' ∷ x))
                  (append-trim_prefix suffix (codes "output.") pre)
                ∙ spelt,
            (nodot, m),
          )
    ]
  ]

  task_ref_sound :
      (e : Text)
      → has_prefix e (codes "tasks.") ≡ true
      → valid_task_ref task_names (split_dot (trim_prefix e (codes "tasks."))) ≡ true
      → Resolves task_names param_names e
  task_ref_sound e p h = elim (Option-cases (split_dot (trim_prefix e (codes "tasks.")))) [
    | inl no_dot ↦ absurd (ground arith)
    | inr ((t, suffix), cut) ↦
        let (joined, nodot) = split_dot_sound (trim_prefix e (codes "tasks.")) t suffix cut in
        let (known, v) = valid_task_ref_parts t suffix (rw cut at h) in
        suffix-Resolves e t suffix
          (ap (λ x. codes "tasks." ++ x) (sym joined) ∙ append-trim_prefix e (codes "tasks.") p)
          nodot ((contains_iff t task_names).0 known) v
  ]

  task_ref-spell :
      (t suffix : Text)
      → NoDot t
      → Memᴰ t task_names
      → valid_suffix suffix ≡ true
      → valid_task_ref task_names
          (split_dot (trim_prefix (codes "tasks." ++ (t ++ b'.' ∷ suffix)) (codes "tasks.")))
        ≡ true
  task_ref-spell t suffix nodot m v =
      rw
        (
          trim_prefix-append (codes "tasks.") (t ++ b'.' ∷ suffix),
          split_dot-append t suffix nodot,
          (contains_iff t task_names).1 m,
        )
        v

  is_valid_expression_sound :
      (e : Text)
      → is_valid_expression e task_names param_names ≡ true
      → Resolves task_names param_names e
  unfolding is_valid_expression
  is_valid_expression_sound e h = elim (Bool-cases (has_prefix e (codes "="))) [
    | inl p ↦ (eval (trim_prefix e (codes "=")), append-trim_prefix e (codes "=") p, tt)
    | inr np ↦ elim (Bool-cases (has_prefix e (codes "params."))) [
      | inl p ↦ (
        param (trim_prefix e (codes "params.")),
        append-trim_prefix e (codes "params.") p,
        (contains_iff (trim_prefix e (codes "params.")) param_names).0 (ground arith),
      )
      | inr nq ↦ elim (Bool-cases (has_prefix e (codes "tasks."))) [
        | inl p ↦ task_ref_sound e p (ground arith)
        | inr nr ↦ absurd (ground arith)
      ]
    ]
  ]

  is_valid_expression-spell :
      (r : Reference)
      → Known task_names param_names r
      → is_valid_expression (spell r) task_names param_names ≡ true
  unfolding is_valid_expression has_prefix ◌==◌
  is_valid_expression-spell (eval e) k = refl
  is_valid_expression-spell (param p) k =
      rw (trim_prefix-append (codes "params.") p) ((contains_iff p param_names).1 k)
  is_valid_expression-spell (output t) (nodot, m) = task_ref-spell t (codes "output") nodot m refl
  is_valid_expression-spell (artifact t) (nodot, m) =
      task_ref-spell t (codes "artifact") nodot m refl
  is_valid_expression-spell (output_field t f) (nodot, m) =
      task_ref-spell t (codes "output." ++ f) nodot m refl

-- `isValidExpression` accepts an expression exactly when it is written as a reference to a parameter
-- of the workflow, to the output, an output field or the artifact of one of its tasks, or as an Argo
-- evaluation.
pub is_valid_expression_iff :
    (e : Text) (task_names param_names : List Text)
    → (is_valid_expression e task_names param_names ≡ true) ↔ Resolves task_names param_names e
is_valid_expression_iff e task_names param_names = (
  is_valid_expression_sound task_names param_names e,
  λ (r, spelt, k).
      subst (λ x. is_valid_expression x task_names param_names ≡ true) spelt
        (is_valid_expression-spell task_names param_names r k),
)
