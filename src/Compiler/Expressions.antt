-- ===== src/Compiler/Expressions.antt =====
-- The translation of expressions in operator/internal/controller/agentworkflow_compiler.go.
mod Argo
mod Trim
pub mod Translates
use flokoa.Common.{
  Bool, true, false, List, [], ◌∷◌, ◌++◌, Option, none, some, Text, codes, ◌==◌, has_prefix,
  trim_prefix, split_dot, trim_space, if◌then◌else◌,
}
use flokoa.Expression.{pieces, replace_with, capture, braced}

abbrev pub agent_task_output_param : Text
agent_task_output_param = codes "result"

abbrev pub agent_task_artifact_param : Text
agent_task_artifact_param = codes "artifact"

abbrev pub output_kind : Bool → Text
output_kind artifact_io = if artifact_io then codes "artifacts" else codes "parameters"

-- "{{tasks.%s.outputs.%s.%s}}"
abbrev pub task_outputs : Text → Bool → Text → Text
task_outputs name artifact_io param =
    codes "{{tasks."
    ++ (name
        ++ (codes ".outputs." ++ (output_kind artifact_io ++ (codes "." ++ (param ++ codes "}}")))))

-- "{{=sprig.fromJson(tasks['%s'].outputs.%s['%s']).parts[0].data.%s}}"
abbrev pub task_field : Text → Bool → Text → Text
task_field name artifact_io path =
    codes "{{=sprig.fromJson(tasks['"
    ++ (name
        ++ (codes "'].outputs."
            ++ (output_kind artifact_io
                ++ (codes "['"
                    ++ (agent_task_artifact_param
                        ++ (codes "']).parts[0].data." ++ (path ++ codes "}}")))))))

-- "{{workflow.parameters.%s}}"
abbrev pub workflow_parameter : Text → Text
workflow_parameter name = codes "{{workflow.parameters." ++ (name ++ codes "}}")

abbrev pub translate_suffix : Text → Bool → Text → Text → Text
translate_suffix e artifact_io name suffix =
    if suffix == codes "artifact"
    then task_outputs name artifact_io agent_task_artifact_param
    else if suffix == codes "output"
    then task_outputs name artifact_io agent_task_output_param
    else if has_prefix suffix (codes "output.")
    then task_field name artifact_io (trim_prefix suffix (codes "output."))
    else braced e

abbrev pub translate_task_ref : Text → Bool → Option (Text × Text) → Text
translate_task_ref e artifact_io none = braced e
translate_task_ref e artifact_io (some (name, suffix)) = translate_suffix e artifact_io name suffix

unfoldable pub translate_expression_with_mode : Text → Bool → Text
translate_expression_with_mode e artifact_io =
    if has_prefix e (codes "=")
    then braced e
    else if has_prefix e (codes "params.")
    then workflow_parameter (trim_prefix e (codes "params."))
    else if has_prefix e (codes "tasks.")
    then translate_task_ref e artifact_io (split_dot (trim_prefix e (codes "tasks.")))
    else braced e

unfoldable pub translate_expression : Text → Text
unfolding translate_expression_with_mode
translate_expression e = translate_expression_with_mode e false

-- FindStringSubmatch on a match always gives the group, so the code's fallback is not reached.
unfoldable pub translate_expressions_with_mode : Text → Bool → Text
translate_expressions_with_mode input artifact_io =
    replace_with (λ inner. translate_expression_with_mode (trim_space (capture inner)) artifact_io)
      (pieces input)

unfoldable pub translate_expressions : Text → Text
unfolding translate_expressions_with_mode
translate_expressions input = translate_expressions_with_mode input false

unfoldable pub translate_condition_expr : Text → Text
translate_condition_expr e =
    replace_with (λ inner. translate_expression (trim_space (capture inner))) (pieces e)
