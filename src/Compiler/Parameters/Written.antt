-- ===== src/Compiler/Parameters/Written.antt =====
-- The parameters that the compiler writes.
use flokoa.Common.{
  ◌≡◌, refl, ap, subst, sym, inl, inr, ⊎_elim, List, [], ◌∷◌, ◌++◌, map, Memᴰ, Memᴰ-cons, Memᴰ-nil,
  Distinct, All, All-imp, Pointwise-map, Option, none, some, Text, is_empty, contains, contains_iff,
  Bool-cases, ◌≢◌, if◌then◌else◌,
}
use flokoa.Api.Task.{KeySelector}
use flokoa.Api.Workflow.{WorkflowParam, AgentWorkflow}
use flokoa.Compiler.Argo.{Parameter}
use flokoa.Compiler.Json.{Runtime}
use flokoa.Compiler.Templates.{cm_param_name}
use flokoa.Compiler.Workflow.{
  cm_parameter, workflow_param, traceparent_parameter, cm_refs, cm_parameters,
}
use flokoa.Compiler.Parameters.{KeyParameter, ParamOf, ParametersOf}
use flokoa.Compiler.Parameters.Keys.{cm_refs-ReadsKey}

given_description :
    (d : Text) → d ≢ [] → ◌≡◌ {A = Option Text} (if is_empty d then none else some d) (some d)
given_description [] h = absurd (h refl)
given_description (c ∷ d) h = refl

workflow_param-ParamOf : (p : WorkflowParam) → ParamOf p (workflow_param p)
workflow_param-ParamOf p = record {
  name = refl;
  value = refl;
  no_description = λ e. rw e refl;
  description = given_description p.description;
}

-- Every parameter that is written has a new name, and comes from a reference.
record Fresh (seen : List Text) (refs : List KeySelector) (ps : List Parameter) : Type 0 where
  pub from : All (λ p. (r : KeySelector) × Memᴰ r refs × (p ≡ cm_parameter r)) ps
  pub unseen : (n : Text) → Memᴰ n (map (λ p. p.name) ps) → ¬ Memᴰ n seen
  pub distinct : Distinct (map (λ p. p.name) ps)

from_later :
    (r : KeySelector) (refs : List KeySelector) (ps : List Parameter)
    → All (λ p. (x : KeySelector) × Memᴰ x refs × (p ≡ cm_parameter x)) ps
    → All (λ p. (x : KeySelector) × Memᴰ x (r ∷ refs) × (p ≡ cm_parameter x)) ps
from_later r refs ps = All-imp _ _ ps (λ p (x, m, e). (x, Memᴰ.tail m, e))

cm_parameters-Fresh :
    (seen : List Text) (refs : List KeySelector) → Fresh seen refs (cm_parameters seen refs)
unfolding cm_parameters
cm_parameters-Fresh seen [] = record {
  from = tt;
  unseen = λ n m. absurd (Memᴰ-nil m);
  distinct = tt;
}
cm_parameters-Fresh seen (r ∷ rs) = elim (Bool-cases (contains (cm_param_name r) seen)) [
  | inl e ↦
      let h = cm_parameters-Fresh seen rs in
      rw (e, cm_parameters)
        (record { from = from_later r rs _ h.from; unseen = h.unseen; distinct = h.distinct })
  | inr e ↦
      let name = cm_param_name r in
      let h = cm_parameters-Fresh (name ∷ seen) rs in
      let new : ¬ Memᴰ name seen = λ m. absurd (cc (e, (contains_iff name seen).1 m)) in
      rw (e, cm_parameters)
        (record {
          from = ((r, Memᴰ.head refl, refl), from_later r rs _ h.from);
          unseen = λ n m.
              ⊎_elim (λ same. subst (λ x. ¬ Memᴰ x seen) (sym same) new)
                (λ later old. h.unseen n later (Memᴰ.tail old)) ((Memᴰ-cons n name _).0 m);
          distinct = (λ m. h.unseen name m (Memᴰ.head refl), h.distinct);
        })
]

pub assembled-ParametersOf :
    (env : Runtime) (awf : AgentWorkflow)
    → ParametersOf env awf (
        traceparent_parameter env.traceparent
        ∷ (map workflow_param awf.spec.params ++ cm_parameters [] (cm_refs awf.spec.tasks)))
assembled-ParametersOf env awf =
    let fresh = cm_parameters-Fresh [] (cm_refs awf.spec.tasks) in
    record {
      first = traceparent_parameter env.traceparent;
      own = map workflow_param awf.spec.params;
      keys = cm_parameters [] (cm_refs awf.spec.tasks);
      all = refl;
      first_name = refl;
      first_default = refl;
      own_params = Pointwise-map ParamOf workflow_param awf.spec.params workflow_param-ParamOf;
      key_params =
          All-imp _ (KeyParameter awf.spec.tasks) _
            (λ p (r, m, e). record {
              ref = r;
              read = cm_refs-ReadsKey awf.spec.tasks r m;
              name = ap (λ x. x.name) e;
              takes = (_, ap (λ x. x.value_from) e, refl);
            })
            fresh.from;
      key_names = fresh.distinct;
    }
