-- ===== src/Compiler/ConfigMaps.antt =====
-- The headers with a configMapKeyRef, and the workflow parameters that stand for the keys.
use mathlib.Core.List.Memᴰ
use flokoa.Common.{
  Avoids, cut_injective, ◌≡◌, refl, sym, ap, subst, ◌∙◌, ◌⊎◌, inl, inr, ⊎_elim, List, [], ◌∷◌, ◌++◌,
  map, Memᴰ, Memᴰ-cons, Memᴰ-nil, mem-Pointwise, All-mem, append_assoc, Option, none, some, Text,
  codes, contains, contains_iff, Bool-cases, is_set, nonempty,
}
use flokoa.Api.Message.{AgentCall}
use flokoa.Api.Task.{
  SecretSelector, KeySelector, AgentTask, ContainerTask, HttpHeaderValueFrom, HttpHeader, HttpTask,
  SwitchCase,
}
use flokoa.Api.Workflow.{AgentWorkflow}
use flokoa.Compiler.Argo.{Parameter, ArgoHeader, Http, Template, WorkflowTemplate}
use flokoa.Compiler.Json.{Runtime}
use flokoa.Compiler.Templates.{CompilerOptions, cm_param_name}
use flokoa.Compiler.Workflow.{
  compiled, cm_parameter, workflow_param, cm_refs, cm_parameters, compile_to_argo_workflow_template,
}
use flokoa.Compiler.Tasks.{Runs, RunsHttp, ReadsFrom, HasValue, HeaderOf, RefersToKey, TemplateOf}
use flokoa.Compiler.Assembled.{compile-Assembled}
use flokoa.Compiler.Parameters.{ReadsKey, TakesKey}
use flokoa.Compiler.Parameters.Keys.{cm_refs-ReadsKey, mem-ReadsKey}
use flokoa.Webhook.Conforms.{ExactlyOne, IfSet, ValidValueFrom, ValidHeader, ValidHttpTask}
use flokoa.Webhook.Validate.{validate_agent_workflow}
use flokoa.Webhook.Accepts.{validate_agent_workflow-eq-none_iff}

-- The names of Kubernetes objects have no underscore.
abbrev pub NoUnderscore : Text → Type 0
NoUnderscore = Avoids b'_'

cm_param_name-injective :
    (a b : KeySelector)
    → NoUnderscore a.name
    → NoUnderscore b.name
    → cm_param_name a ≡ cm_param_name b
    → a ≡ b
cm_param_name-injective a b ha hb e =
    let (p, q) = cut_injective b'_' a.name b.name a.key b.key ha hb (cc) in
    λ i. record { name = p i; key = q i }

-- A parameter of this name is written for one of the references.
abbrev Emitted : List KeySelector → List Parameter → Text → Type 0
Emitted refs out name =
    (r : KeySelector) × Memᴰ r refs × Memᴰ (cm_parameter r) out × (cm_param_name r ≡ name)

cm_parameters_cover :
    (seen : List Text) (refs : List KeySelector) (ref : KeySelector)
    → Memᴰ ref refs
    → Memᴰ (cm_param_name ref) seen ⊎ Emitted refs (cm_parameters seen refs) (cm_param_name ref)
unfolding cm_parameters
cm_parameters_cover seen [] ref m = absurd (Memᴰ-nil m)
cm_parameters_cover seen (r ∷ rs) ref m = elim (Bool-cases (contains (cm_param_name r) seen)) [
  | inl e ↦ elim ((Memᴰ-cons ref r rs).0 m) [
    | inl same ↦ inl (rw same ((contains_iff (cm_param_name r) seen).0 e))
    | inr later ↦ elim (cm_parameters_cover seen rs ref later) [
      | inl old ↦ inl old
      | inr (x, mx, out, named) ↦ inr (x, Memᴰ.tail mx, rw (e, cm_parameters) out, named)
    ]
  ]
  | inr e ↦ elim ((Memᴰ-cons ref r rs).0 m) [
    | inl same ↦
        inr (r, Memᴰ.head refl, rw (e, cm_parameters) (Memᴰ.head refl), ap cm_param_name (sym same))
    | inr later ↦ elim (cm_parameters_cover (cm_param_name r ∷ seen) rs ref later) [
      | inl old ↦ elim ((Memᴰ-cons (cm_param_name ref) (cm_param_name r) seen).0 old) [
        | inl named ↦ inr (r, Memᴰ.head refl, rw (e, cm_parameters) (Memᴰ.head refl), sym named)
        | inr before ↦ inl before
      ]
      | inr (x, mx, out, named) ↦
          inr (x, Memᴰ.tail mx, rw (e, cm_parameters) (Memᴰ.tail out), named)
    ]
  ]
]

-- Header `header` of the template of the task `task` has the value of the workflow parameter that
-- takes the key `ref`.
pub record HeaderGets (wft : WorkflowTemplate) (task header : Text) (ref : KeySelector)
    : Type 0 where
  pub template : Template
  pub template_mem : Memᴰ template wft.templates
  pub template_name : template.name ≡ task
  pub http : Http
  pub is_http : template.http ≡ some http
  pub out : ArgoHeader
  pub out_mem : Memᴰ out http.headers
  pub out_name : out.name ≡ header
  pub no_secret : out.secret_key_ref ≡ none
  pub parameter : Parameter
  pub parameter_mem : Memᴰ parameter wft.parameters
  pub takes : TakesKey ref parameter
  pub refers : out.value ≡ codes "{{workflow.parameters." ++ (parameter.name ++ codes "}}")

-- An HTTP task is of no other kind.
only_http :
    (a : Option AgentCall) (t : Option AgentTask) (c : Option ContainerTask) (h : Option HttpTask)
    (s : List SwitchCase) (x : HttpTask)
    → h ≡ some x
    → ExactlyOne (is_set a ∷ is_set t ∷ is_set c ∷ is_set h ∷ nonempty s ∷ [])
    → (a ≡ none) × (c ≡ none)
only_http none t none h s x e one = (refl, refl)
only_http (some a) t c none s x e one = cc
only_http (some a) t c (some h) s x e (_, (_, (bad, _))) = cc
only_http none t (some c) none s x e one = cc
only_http none none (some c) (some h) s x e (bad, _) = cc
only_http none (some t) (some c) (some h) s x e (_, (bad, _)) = cc

runs_http :
    (env : Runtime) (a : Option AgentCall) (c : Option ContainerTask) (h : Option HttpTask)
    (s : List SwitchCase) (t : Template) (x : HttpTask)
    → a ≡ none
    → c ≡ none
    → h ≡ some x
    → Runs env a c h s t
    → RunsHttp x t
runs_http env none none none s t x p q e r = cc
runs_http env none none (some h) s t x p q e r =
    let same : h ≡ x = cc in subst (λ y. RunsHttp y t) same r
runs_http env (some a) c h s t x p q e r = cc
runs_http env none (some c) h s t x p q e r = cc

no_secret_too :
    (s : Option SecretSelector) (c : Option KeySelector) (ref : KeySelector)
    → c ≡ some ref
    → ExactlyOne (is_set s ∷ is_set c ∷ [])
    → s ≡ none
no_secret_too none c ref e one = refl
no_secret_too (some s) none ref e one = cc
no_secret_too (some s) (some c) ref e (bad, _) = cc

header_refers :
    (h : HttpHeader) (ref : KeySelector) (v : HttpHeaderValueFrom) (x : ArgoHeader)
    → h.value_from ≡ some v
    → v.config_map_key_ref ≡ some ref
    → ValidHeader h
    → HeaderOf h x
    → (x.secret_key_ref ≡ none) × RefersToKey ref x
header_refers h ref v x has reads valid out =
    let alone =
      no_secret_too v.secret_key_ref v.config_map_key_ref ref reads
        (subst (IfSet ValidValueFrom) has valid.value_from) in
    let from : ReadsFrom v.secret_key_ref v.config_map_key_ref h.value x =
      subst (λ o. HasValue o h.value x) has out.value in
    subst (λ c. ReadsFrom none c h.value x) reads
      (subst (λ s. ReadsFrom s v.config_map_key_ref h.value x) alone from)

compile-mem-cm_parameter :
    (env : Runtime) (wf : AgentWorkflow) (opts : CompilerOptions) (wft : WorkflowTemplate)
    (ref : KeySelector)
    → compile_to_argo_workflow_template env wf opts ≡ compiled wft
    → ((r : KeySelector) → ReadsKey wf.spec.tasks r → NoUnderscore r.name)
    → ReadsKey wf.spec.tasks ref
    → Memᴰ (cm_parameter ref) wft.parameters
compile-mem-cm_parameter env wf opts wft ref h plain_names k =
    let refs = cm_refs wf.spec.tasks in
    let met = mem-ReadsKey wf.spec.tasks ref k in
    let written : Memᴰ (cm_parameter ref) (cm_parameters [] refs) =
      ⊎_elim (λ none_. absurd (Memᴰ-nil none_))
        (λ (r, mr, out, named).
          subst (λ x. Memᴰ (cm_parameter x) (cm_parameters [] refs))
            (cm_param_name-injective r ref (plain_names r (cm_refs-ReadsKey wf.spec.tasks r mr))
              (plain_names ref k) named)
            out)
        (cm_parameters_cover [] refs ref met) in
    subst (Memᴰ (cm_parameter ref)) (sym (compile-Assembled env wf opts wft h).parameters)
      (Memᴰ.tail (Memᴰ.append_right (map workflow_param wf.spec.params) written))

-- In the compilation of a workflow that `ValidateAgentWorkflow` accepts, where the names of the
-- config maps have no underscore: every header of an HTTP task with a reference to a config map key
-- is a header of the task's template, and its value there refers by name to a workflow parameter
-- that takes that key.
pub compile-cm_parameter :
    (env : Runtime) (wf : AgentWorkflow) (opts : CompilerOptions) (wft : WorkflowTemplate)
    (ref : KeySelector)
    → validate_agent_workflow wf ≡ none
    → compile_to_argo_workflow_template env wf opts ≡ compiled wft
    → ((r : KeySelector) → ReadsKey wf.spec.tasks r → NoUnderscore r.name)
    → (k : ReadsKey wf.spec.tasks ref) → HeaderGets wft k.task.name k.by.header.name ref
compile-cm_parameter env wf opts wft ref accepted h plain_names k =
    let c = compile-Assembled env wf opts wft h in
    let formed = (validate_agent_workflow-eq-none_iff wf).0 accepted in
    let valid = All-mem _ k.task wf.spec.tasks k.task_mem formed.each in
    let task = k.task in
    let (no_agent, no_container) =
      only_http task.agent task.agent_task task.container task.http task.switch k.http k.is_http
        valid.kind in
    let (t, t_mem, is_t) =
      mem-Pointwise (TemplateOf env wf) task wf.spec.tasks c.rest k.task_mem c.each in
    let runs =
      runs_http env task.agent task.container task.http task.switch t k.http no_agent no_container
        k.is_http is_t.runs in
    let (x, x_mem, is_x) =
      mem-Pointwise HeaderOf k.by.header k.http.headers runs.http.headers k.by.header_mem
        runs.headers in
    let valid_http : ValidHttpTask k.http = subst (IfSet ValidHttpTask) k.is_http valid.http in
    let (no_secret, refers) =
      header_refers k.by.header ref k.by.source x k.by.has_source k.by.reads
        (All-mem ValidHeader k.by.header k.http.headers k.by.header_mem valid_http.headers) is_x in
    record {
      template = t;
      template_mem = subst (Memᴰ t) (sym c.templates) (Memᴰ.tail t_mem);
      template_name = is_t.name;
      http = runs.http;
      is_http = runs.is_http;
      out = x;
      out_mem = x_mem;
      out_name = is_x.name;
      no_secret = no_secret;
      parameter = cm_parameter ref;
      parameter_mem = compile-mem-cm_parameter env wf opts wft ref h plain_names k;
      takes = (_, refl, refl);
      refers =
          refers
          ∙ ap (λ s. codes "{{workflow.parameters._cm_" ++ s)
              (sym (append_assoc ref.name (b'_' ∷ ref.key) (codes "}}")));
    }
