-- ===== src/Compiler/Parameters.antt =====
-- The parameters of a compiled workflow template, said field by field.
pub mod Keys
pub mod Written
use mathlib.Core.List.Memᴰ
use flokoa.Common.{
  ◌≡◌, refl, ap, subst, sym, ◌⊎◌, inl, inr, ⊎_elim, List, [], ◌∷◌, ◌++◌, map, Memᴰ, Memᴰ-cons,
  Memᴰ-nil, Distinct, All, Pointwise, Pointwise-map, Option, none, some, Text, codes, is_empty,
  contains, contains_iff, Bool-cases, Option-cases, ◌≢◌, true, false,
}
use flokoa.Api.Task.{KeySelector, HttpHeaderValueFrom, HttpHeader, HttpTask}
use flokoa.Api.Workflow.{WorkflowParam, WorkflowTask, AgentWorkflow}
use flokoa.Compiler.Argo.{ValueFrom, Parameter}
use flokoa.Compiler.Json.{Runtime}
use flokoa.Compiler.Templates.{cm_param_name, config_map_ref}
use flokoa.Compiler.Workflow.{
  cm_parameter, workflow_param, traceparent_parameter, header_cm_refs, task_cm_refs, cm_refs,
  cm_parameters,
}

-- A header of the list has a reference to the key `ref` of a config map.
pub record HeaderReads (headers : List HttpHeader) (ref : KeySelector) : Type 0 where
  pub header : HttpHeader
  pub header_mem : Memᴰ header headers
  pub source : HttpHeaderValueFrom
  pub has_source : header.value_from ≡ some source
  pub reads : source.config_map_key_ref ≡ some ref

-- A header of an HTTP task of the list has it.
pub record ReadsKey (tasks : List WorkflowTask) (ref : KeySelector) : Type 0 where
  pub task : WorkflowTask
  pub task_mem : Memᴰ task tasks
  pub http : HttpTask
  pub is_http : task.http ≡ some http
  pub by : HeaderReads http.headers ref

-- The parameter has the value of the key of the config map.
abbrev pub TakesKey : KeySelector → Parameter → Type 0
TakesKey ref p = (v : ValueFrom) × (p.value_from ≡ some v) × (v.config_map_key_ref ≡ some ref)

-- A parameter for a key that some header reads.
pub record KeyParameter (tasks : List WorkflowTask) (p : Parameter) : Type 0 where
  pub ref : KeySelector
  pub read : ReadsKey tasks ref
  pub name : p.name ≡ codes "_cm_" ++ (ref.name ++ (codes "_" ++ ref.key))
  pub takes : TakesKey ref p

pub record ParamOf (param : WorkflowParam) (p : Parameter) : Type 0 where
  pub name : p.name ≡ param.name
  pub value : p.value ≡ some param.value
  pub no_description : param.description ≡ [] → p.description ≡ none
  pub description : param.description ≢ [] → p.description ≡ some param.description

-- The traceparent, the workflow's own parameters in order, and at most one parameter of a name for
-- the keys that headers read.
pub record ParametersOf (env : Runtime) (awf : AgentWorkflow) (ps : List Parameter) : Type 0 where
  pub first : Parameter
  pub own : List Parameter
  pub keys : List Parameter
  pub all : ps ≡ first ∷ (own ++ keys)
  pub first_name : first.name ≡ codes "_flokoa_traceparent"
  pub first_default : first.default_value ≡ some env.traceparent
  pub own_params : Pointwise ParamOf awf.spec.params own
  pub key_params : All (KeyParameter awf.spec.tasks) keys
  pub key_names : Distinct (map (λ p. p.name) keys)
