-- ===== src/Compiler/Tasks/Built.antt =====
-- The template that the compiler builds for a task is what it has to be.
use flokoa.Common.{
  ◌≡◌, refl, ◌≢◌, ap, subst, sym, map_option, to_int32, inl, inr, List, [], ◌∷◌, ◌++◌, map,
  Pointwise-map, Option, none, some, Text, codes, is_empty, if◌then◌else◌, Option-cases, ℤ,
  append_assoc, Bool-cases,
}
use flokoa.Api.Message.{AgentCall}
use flokoa.Api.Task.{
  EnvVar, SecretSelector, KeySelector, AgentTask, ContainerTask, HttpHeader, HttpHeaderValueFrom,
  HttpTask, SwitchCase,
}
use flokoa.Api.Workflow.{WorkflowBackoff, WorkflowRetryStrategy, WorkflowTask, AgentWorkflow}
use flokoa.Compiler.Argo.{Template}
use flokoa.Compiler.Json.{Runtime}
use flokoa.Compiler.Plugin.{build_agent_template, agent_template, plugin_data}
use flokoa.Compiler.Templates.{
  CompilerOptions, translate_backoff, translate_env, translate_retry_strategy, header_of,
  build_header, config_map_ref, secret_ref, Built, built, failed, of_option, start_template,
  fill_template, build_template, build_container_template, build_http_template,
}
use flokoa.Compiler.Tasks.{
  Likewise, BackoffOf, RetryOf, Retries, Deadline, ReadsFrom, HasValue, HeaderOf, Runs,
  RunsContainer, RunsHttp, OneBody, TemplateOf,
}

backoff-BackoffOf :
    (o : Option WorkflowBackoff) → Likewise BackoffOf o (map_option translate_backoff o)
backoff-BackoffOf none = refl
backoff-BackoffOf (some b) = (translate_backoff b, refl, record { duration = refl; factor = refl })

strategy-RetryOf :
    (o : Option WorkflowRetryStrategy) → Likewise RetryOf o (map_option translate_retry_strategy o)
unfolding translate_retry_strategy
strategy-RetryOf none = refl
strategy-RetryOf (some s) = (
  translate_retry_strategy s,
  refl,
  record { limit = refl; backoff = backoff-BackoffOf s.backoff },
)

either-Retries :
    (own shared : Option WorkflowRetryStrategy)
    → Retries own shared
        (map_option translate_retry_strategy (elim own [ none ↦ shared | some rs ↦ some rs ]))
either-Retries none shared = strategy-RetryOf shared
either-Retries (some s) shared = strategy-RetryOf (some s)

timeout-Deadline :
    (env : Runtime) (o : Option ℤ)
    → Likewise (Deadline env) o (map_option (λ d. to_int32 (env.seconds d)) o)
timeout-Deadline env none = refl
timeout-Deadline env (some d) = (to_int32 (env.seconds d), refl, refl)

map-translate_env :
    (es : List EnvVar) → map (λ e. e.name) (map translate_env es) ≡ map (λ e. e.name) es
map-translate_env [] = refl
map-translate_env (e ∷ es) = elim (Bool-cases (is_empty e.value)) [
  | inl empty ↦ rw (empty, map-translate_env es) refl
  | inr given ↦ rw (given, map-translate_env es) refl
]

header_of-ReadsFrom :
    (h : HttpHeader) (s : Option SecretSelector) (c : Option KeySelector)
    → ((header_of h s c).name ≡ h.name) × ReadsFrom s c h.value (header_of h s c)
header_of-ReadsFrom h (some s) c = (refl, (refl, refl))
header_of-ReadsFrom h none (some ref) = (
  refl,
  (
    refl,
    ap (λ t. codes "{{workflow.parameters._cm_" ++ t)
        (append_assoc ref.name (b'_' ∷ ref.key) (codes "}}")),
  ),
)
header_of-ReadsFrom h none none = (refl, (refl, refl))

header_of-HasValue :
    (h : HttpHeader) (v : Option HttpHeaderValueFrom)
    → HasValue v h.value (header_of h (secret_ref v) (config_map_ref v))
header_of-HasValue h none = (refl, refl)
header_of-HasValue h (some v) = (header_of-ReadsFrom h v.secret_key_ref v.config_map_key_ref).1

build_header-HeaderOf : (h : HttpHeader) → HeaderOf h (build_header h)
unfolding build_header
build_header-HeaderOf h = record {
  name = (header_of-ReadsFrom h (secret_ref h.value_from) (config_map_ref h.value_from)).0;
  value = header_of-HasValue h h.value_from;
}

given_method : (m : Text) → m ≢ [] → (if is_empty m then codes "GET" else m) ≡ m
given_method [] h = absurd (h refl)
given_method (c ∷ m) h = refl

http-RunsHttp : (tmpl : Template) (h : HttpTask) → RunsHttp h (build_http_template tmpl h)
unfolding build_http_template
http-RunsHttp tmpl h = record {
  http = _;
  is_http = refl;
  url = refl;
  body = refl;
  default_method = λ e. rw e refl;
  method = given_method h.method;
  success_condition = refl;
  headers = Pointwise-map HeaderOf build_header h.headers build_header-HeaderOf;
}

container-RunsContainer :
    (tmpl : Template) (c : ContainerTask) (opts : CompilerOptions)
    → RunsContainer c (build_container_template tmpl c opts)
unfolding build_container_template
container-RunsContainer tmpl c opts = record {
  container = _;
  is_container = refl;
  image = refl;
  command = refl;
  args = refl;
  working_dir = refl;
  volume_mounts = refl;
  resources = refl;
  env = ap (λ names. codes "FLOKOA_TRACEPARENT" ∷ names) (map-translate_env c.env);
}

-- What holds of the template, if there is one.
abbrev pub OnBuilt : (Template → Type 0) → Built Template → Type 0
OnBuilt P (built t) = P t
OnBuilt P (failed e) = Unit

module _ (env : Runtime) (awf : AgentWorkflow) (task : WorkflowTask) where
  -- `TemplateOf`, for the kinds that are left of the task.
  record Filled (agent : Option AgentCall) (container : Option ContainerTask)
      (http : Option HttpTask) (switch : List SwitchCase) (t : Template) : Type 0 where
    pub name : t.name ≡ task.name
    pub deadline : Likewise (Deadline env) task.timeout t.active_deadline_seconds
    pub retry : Retries task.retry_strategy awf.spec.retry_strategy t.retry_strategy
    pub runs : Runs env agent container http switch t
    pub one_body : OneBody t

  start_template-Filled :
      (agent : Option AgentCall) (container : Option ContainerTask) (http : Option HttpTask)
      (switch : List SwitchCase) (t : Template)
      → t.name ≡ (start_template env awf task).name
      → t.active_deadline_seconds ≡ (start_template env awf task).active_deadline_seconds
      → t.retry_strategy ≡ (start_template env awf task).retry_strategy
      → Runs env agent container http switch t
      → OneBody t
      → Filled agent container http switch t
  unfolding start_template
  start_template-Filled a c h s t n d r runs one = record {
    name = n;
    deadline =
        subst (Likewise (Deadline env) task.timeout) (sym d) (timeout-Deadline env task.timeout);
    retry =
        subst (Retries task.retry_strategy awf.spec.retry_strategy) (sym r)
          (either-Retries task.retry_strategy awf.spec.retry_strategy);
    runs = runs;
    one_body = one;
  }

  build_agent_template-Filled :
      (a : AgentCall) (c : Option ContainerTask) (h : Option HttpTask) (s : List SwitchCase)
      → OnBuilt
          (Filled (some a) c h s)
          (of_option (build_agent_template env (start_template env awf task) a))
  unfolding build_agent_template start_template
  build_agent_template-Filled a c h s = elim (Option-cases (env.marshal (plugin_data env a))) [
    | inl e ↦ rw (e, build_agent_template) tt
    | inr (json, e) ↦
        rw (e, build_agent_template)
          (start_template-Filled (some a) c h s (agent_template (start_template env awf task) json)
            refl refl refl (record { json = json; is_plugin = refl; of_call = e })
            (refl, (refl, (refl, (refl, tt)))))
  ]

  fill_template-Filled :
      (opts : CompilerOptions) (agent : Option AgentCall) (agent_task : Option AgentTask)
      (container : Option ContainerTask) (http : Option HttpTask) (switch : List SwitchCase)
      → OnBuilt (Filled agent container http switch) (
          fill_template env opts
            (start_template env awf task)
            agent
            agent_task
            container
            http
            switch)
  unfolding build_container_template build_http_template start_template
  fill_template-Filled opts (some a) at c h s = build_agent_template-Filled a c h s
  fill_template-Filled opts none (some _) c h s = tt
  fill_template-Filled opts none none (some c) h s =
      start_template-Filled none (some c) h s _ refl refl refl
        (container-RunsContainer (start_template env awf task) c opts) (refl, (refl, (refl, tt)))
  fill_template-Filled opts none none none (some h) s =
      start_template-Filled none none (some h) s _ refl refl refl
        (http-RunsHttp (start_template env awf task) h) (refl, (refl, tt))
  fill_template-Filled opts none none none none (sc ∷ scs) =
      start_template-Filled none none none (sc ∷ scs) _ refl refl refl
        (record { script = _; is_script = refl; image = refl; command = refl; args = refl })
        (refl, tt)
  fill_template-Filled opts none none none none [] = tt

  on_Filled :
      (b : Built Template)
      → OnBuilt (Filled task.agent task.container task.http task.switch) b
      → OnBuilt (TemplateOf env awf task) b
  on_Filled (failed e) h = tt
  on_Filled (built t) h = record {
    name = h.name;
    deadline = h.deadline;
    retry = h.retry;
    runs = h.runs;
    one_body = h.one_body;
  }

  pub build_template-TemplateOf :
      (opts : CompilerOptions)
      → OnBuilt (TemplateOf env awf task) (build_template env awf task opts)
  unfolding build_template
  build_template-TemplateOf opts =
      on_Filled _
        (fill_template-Filled opts task.agent task.agent_task task.container task.http task.switch)
