-- ===== src/Expression/Reference.antt =====
-- The references of the workflow language as data: how each is written in an expression, and the
-- Argo expression that it stands for.
use flokoa.Common.{◌≡◌, List, ◌++◌, Memᴰ, Text, codes, NoDot}

pub data Reference : Type 0 where
  eval : Text → Reference
  param : Text → Reference
  output : Text → Reference
  artifact : Text → Reference
  output_field : Text → Text → Reference

-- The text between the braces.
abbrev pub spell : Reference → Text
spell (eval e) = codes "=" ++ e
spell (param p) = codes "params." ++ p
spell (output t) = codes "tasks." ++ (t ++ codes ".output")
spell (artifact t) = codes "tasks." ++ (t ++ codes ".artifact")
spell (output_field t f) = codes "tasks." ++ (t ++ (codes ".output." ++ f))

-- The reference names a parameter of the workflow, or a task of it whose name has no dot.
abbrev pub Known : List Text → List Text → Reference → Type 0
Known task_names param_names (eval e) = Unit
Known task_names param_names (param p) = Memᴰ p param_names
Known task_names param_names (output t) = NoDot t × Memᴰ t task_names
Known task_names param_names (artifact t) = NoDot t × Memᴰ t task_names
Known task_names param_names (output_field t f) = NoDot t × Memᴰ t task_names

-- An expression that resolves in a workflow with these tasks and parameters.
abbrev pub Resolves : List Text → List Text → Text → Type 0
Resolves task_names param_names e = (r : Reference) × (spell r ≡ e) × Known task_names param_names r
