-- ===== src/Compiler/Expressions/Argo.antt =====
-- The Argo form of a reference, and that the translation gives it.
use flokoa.Common.{
  ◌≡◌, refl, ap, ◌∙◌, Bool, ◌++◌, ◌∷◌, List, Text, codes, ◌==◌, has_prefix, NoDot,
  trim_prefix-append, split_dot-append,
}
use flokoa.Expression.{braced}
use flokoa.Expression.Reference.{
  Reference, eval, param, output, artifact, output_field, spell, Known,
}
use flokoa.Compiler.Expressions.{
  task_outputs, task_field, workflow_parameter, translate_suffix, translate_expression_with_mode,
  agent_task_output_param, agent_task_artifact_param,
}

-- An evaluation stays as it is; a parameter is a workflow parameter; a task's output and artifact are
-- its two outputs; and a field of its output is read from the data of the artifact's first part.
abbrev pub argo : Bool → Reference → Text
argo artifact_io (eval e) = braced (codes "=" ++ e)
argo artifact_io (param p) = workflow_parameter p
argo artifact_io (output t) = task_outputs t artifact_io agent_task_output_param
argo artifact_io (artifact t) = task_outputs t artifact_io agent_task_artifact_param
argo artifact_io (output_field t f) = task_field t artifact_io f

task_ref_translated :
    (artifact_io : Bool) (t suffix : Text)
    → NoDot t
    → translate_expression_with_mode (codes "tasks." ++ (t ++ b'.' ∷ suffix)) artifact_io
      ≡ translate_suffix (codes "tasks." ++ (t ++ b'.' ∷ suffix)) artifact_io t suffix
unfolding translate_expression_with_mode has_prefix
task_ref_translated artifact_io t suffix nodot =
    rw (trim_prefix-append (codes "tasks.") (t ++ b'.' ∷ suffix), split_dot-append t suffix nodot)
      refl

pub translate_expression-spell :
    (task_names param_names : List Text) (artifact_io : Bool) (r : Reference)
    → Known task_names param_names r
    → translate_expression_with_mode (spell r) artifact_io ≡ argo artifact_io r
unfolding translate_expression_with_mode has_prefix ◌==◌
translate_expression-spell ts ps artifact_io (eval e) k = refl
translate_expression-spell ts ps artifact_io (param p) k =
    rw (trim_prefix-append (codes "params.") p)
translate_expression-spell ts ps artifact_io (output t) k =
    task_ref_translated artifact_io t (codes "output") k.0
translate_expression-spell ts ps artifact_io (artifact t) k =
    task_ref_translated artifact_io t (codes "artifact") k.0
translate_expression-spell ts ps artifact_io (output_field t f) k =
    task_ref_translated artifact_io t (codes "output." ++ f) k.0
    ∙ ap (λ x. task_field t artifact_io x) (trim_prefix-append (codes "output.") f)
