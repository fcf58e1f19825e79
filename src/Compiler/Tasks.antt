-- ===== src/Compiler/Tasks.antt =====
-- What the template of a task has to be, said field by field.
pub mod Built
use flokoa.Common.{
  ◌≡◌, ◌≢◌, to_int32, ℤ, List, [], ◌∷◌, ◌++◌, map, Pointwise, Option, none, some, Text, codes,
  is_set,
}
use flokoa.Api.Message.{AgentCall}
use flokoa.Api.Task.{
  SecretSelector, KeySelector, ContainerTask, HttpHeaderValueFrom, HttpHeader, HttpTask, SwitchCase,
}
use flokoa.Api.Workflow.{WorkflowBackoff, WorkflowRetryStrategy, WorkflowTask, AgentWorkflow}
use flokoa.Compiler.Argo.{Container, ArgoHeader, Http, Backoff, RetryStrategy, Template}
use flokoa.Compiler.Json.{Runtime}
use flokoa.Compiler.Expressions.{translate_expressions}
use flokoa.Compiler.Plugin.{plugin_data}
use flokoa.Webhook.Conforms.{ExactlyOne}

-- Both pointers are nil, or both point to related values.
abbrev pub Likewise : {A B : Type 0} → (A → B → Type 0) → Option A → Option B → Type 0
Likewise R none b = b ≡ none
Likewise {B} R (some a) b = (x : B) × (b ≡ some x) × R a x

pub record BackoffOf (b : WorkflowBackoff) (x : Backoff) : Type 0 where
  pub duration : x.duration ≡ b.duration
  pub factor : x.factor ≡ b.factor

pub record RetryOf (s : WorkflowRetryStrategy) (x : RetryStrategy) : Type 0 where
  pub limit : x.limit ≡ s.limit
  pub backoff : Likewise BackoffOf s.backoff x.backoff

-- The task's strategy comes before the workflow's.
abbrev pub Retries :
    Option WorkflowRetryStrategy → Option WorkflowRetryStrategy → Option RetryStrategy → Type 0
Retries (some own) shared r = Likewise RetryOf (some own) r
Retries none shared r = Likewise RetryOf shared r

abbrev pub Deadline : Runtime → ℤ → ℤ → Type 0
Deadline env timeout seconds = seconds ≡ to_int32 (env.seconds timeout)

pub record RunsContainer (c : ContainerTask) (t : Template) : Type 0 where
  pub container : Container
  pub is_container : t.container ≡ some container
  pub image : container.image ≡ c.image
  pub command : container.command ≡ c.command
  pub args : container.args ≡ c.args
  pub working_dir : container.working_dir ≡ c.working_dir
  pub volume_mounts : container.volume_mounts ≡ c.volume_mounts
  pub resources : container.resources ≡ c.resources
  pub env : map (λ e. e.name) container.env ≡ codes "FLOKOA_TRACEPARENT" ∷ map (λ e. e.name) c.env

-- The value refers to the workflow parameter of the config map's name and the key.
abbrev pub RefersToKey : KeySelector → ArgoHeader → Type 0
RefersToKey ref x =
    x.value
    ≡ codes "{{workflow.parameters._cm_" ++ (ref.name ++ (codes "_" ++ (ref.key ++ codes "}}")))

-- A secret comes before a config map, and both before the value.
abbrev pub ReadsFrom : Option SecretSelector → Option KeySelector → Text → ArgoHeader → Type 0
ReadsFrom (some secret) ref value x = (x.secret_key_ref ≡ some secret) × (x.value ≡ [])
ReadsFrom none (some ref) value x = (x.secret_key_ref ≡ none) × RefersToKey ref x
ReadsFrom none none value x = (x.secret_key_ref ≡ none) × (x.value ≡ translate_expressions value)

abbrev pub HasValue : Option HttpHeaderValueFrom → Text → ArgoHeader → Type 0
HasValue none value x = ReadsFrom none none value x
HasValue (some s) value x = ReadsFrom s.secret_key_ref s.config_map_key_ref value x

pub record HeaderOf (h : HttpHeader) (x : ArgoHeader) : Type 0 where
  pub name : x.name ≡ h.name
  pub value : HasValue h.value_from h.value x

pub record RunsHttp (h : HttpTask) (t : Template) : Type 0 where
  pub http : Http
  pub is_http : t.http ≡ some http
  pub url : http.url ≡ translate_expressions h.url
  pub body : http.body ≡ translate_expressions h.body
  pub default_method : h.method ≡ [] → http.method ≡ codes "GET"
  pub method : h.method ≢ [] → http.method ≡ h.method
  pub success_condition : http.success_condition ≡ h.success_condition
  pub headers : Pointwise HeaderOf h.headers http.headers

pub record RunsScript (t : Template) : Type 0 where
  pub script : Container
  pub is_script : t.script ≡ some script
  pub image : script.image ≡ codes "alpine:3.18"
  pub command : script.command ≡ codes "echo" ∷ []
  pub args : script.args ≡ codes "switch-router" ∷ []

pub record RunsPlugin (env : Runtime) (a : AgentCall) (t : Template) : Type 0 where
  pub json : Text
  pub is_plugin : t.plugin ≡ some json
  pub of_call : env.marshal (plugin_data env a) ≡ some json

-- What runs for a task of each kind.
abbrev pub Runs :
    Runtime
    → Option AgentCall
    → Option ContainerTask
    → Option HttpTask
    → List SwitchCase
    → Template
    → Type 0
Runs env (some a) c h s t = RunsPlugin env a t
Runs env none (some c) h s t = RunsContainer c t
Runs env none none (some h) s t = RunsHttp h t
Runs env none none none (sc ∷ scs) t = RunsScript t
Runs env none none none [] t = ⊥

abbrev pub OneBody : Template → Type 0
OneBody t =
    ExactlyOne
      (is_set t.plugin ∷ is_set t.container ∷ is_set t.http ∷ is_set t.script ∷ is_set t.dag ∷ [])

-- The template of a task: its name, the task's own deadline, the task's retry strategy or else the
-- workflow's, and one thing to run, by the kind of the task.
pub record TemplateOf (env : Runtime) (awf : AgentWorkflow) (task : WorkflowTask) (t : Template)
    : Type 0 where
  pub name : t.name ≡ task.name
  pub deadline : Likewise (Deadline env) task.timeout t.active_deadline_seconds
  pub retry : Retries task.retry_strategy awf.spec.retry_strategy t.retry_strategy
  pub runs : Runs env task.agent task.container task.http task.switch t
  pub one_body : OneBody t
