-- ===== src/Compiler/Templates.antt =====
-- One template for one task: buildTemplate, buildContainerTemplate, buildHTTPTemplate and
-- translateRetryStrategy of operator/internal/controller/agentworkflow_compiler.go.
use flokoa.Common.{
  map_option, to_int32, Bool, List, [], ◌∷◌, ◌++◌, map, Option, none, some, Text, codes, is_empty,
  if◌then◌else◌,
}
use flokoa.Api.Task.{
  AgentTask, SwitchCase, EnvVar, SecretSelector, KeySelector, ContainerTask, HttpHeaderValueFrom,
  HttpHeader, HttpTask,
}
use flokoa.Api.Message.{AgentCall}
use flokoa.Api.Workflow.{WorkflowBackoff, WorkflowRetryStrategy, WorkflowTask, AgentWorkflow}
use flokoa.Compiler.Argo.{
  Parameter, ArgoHeader, Backoff, RetryStrategy, Template, empty_value_from, empty_parameter,
  empty_container, empty_template,
}
use flokoa.Compiler.Json.{Runtime}
use flokoa.Compiler.Expressions.{
  translate_expressions, workflow_parameter, agent_task_output_param, agent_task_artifact_param,
}
use flokoa.Compiler.Plugin.{build_agent_template, traceparent_workflow_param}

pub record CompilerOptions : Type 0 where
  pub artifact_io_enabled : Bool
  pub artifact_gc_strategy : Text

abbrev pub translate_backoff : WorkflowBackoff → Backoff
translate_backoff b = record { duration = b.duration; factor = b.factor }

unfoldable pub translate_retry_strategy : WorkflowRetryStrategy → RetryStrategy
translate_retry_strategy rs = record {
  limit = rs.limit;
  backoff = map_option translate_backoff rs.backoff;
}

abbrev pub traceparent_env : EnvVar
traceparent_env = record {
  name = codes "FLOKOA_TRACEPARENT";
  value = workflow_parameter traceparent_workflow_param;
  value_from = none;
}

abbrev pub translate_env : EnvVar → EnvVar
translate_env e = if is_empty e.value then e else record e { value = translate_expressions e.value }

abbrev path_output : Text → Option Text → Text → Parameter
path_output name default_value path = record empty_parameter {
  name = name;
  default_value = default_value;
  value_from = some (record empty_value_from { path = path });
}

abbrev expression_output : Text → Text → Parameter
expression_output name expression = record empty_parameter {
  name = name;
  value_from = some (record empty_value_from { expression = expression });
}

unfoldable pub build_container_template : Template → ContainerTask → CompilerOptions → Template
build_container_template tmpl ct opts = record tmpl {
  container = some (record {
    image = ct.image;
    command = ct.command;
    args = ct.args;
    env = traceparent_env ∷ map translate_env ct.env;
    working_dir = ct.working_dir;
    volume_mounts = ct.volume_mounts;
    resources = ct.resources;
  });
  outputs =
      if opts.artifact_io_enabled
      then record {
        parameters = [];
        artifacts =
            record { name = agent_task_output_param; raw = [] }
            ∷ record { name = agent_task_artifact_param; raw = codes "{}" }
            ∷ [];
      }
      else record {
        parameters =
            path_output agent_task_output_param none (codes "/tmp/result")
            ∷ path_output agent_task_artifact_param (some (codes "{}")) (codes "/tmp/artifact")
            ∷ [];
        artifacts = [];
      };
}

-- "_cm_%s_%s"
abbrev pub cm_param_name : KeySelector → Text
cm_param_name ref = codes "_cm_" ++ (ref.name ++ (codes "_" ++ ref.key))

abbrev secret_header : Text → SecretSelector → ArgoHeader
secret_header name ref = record { name = name; value = []; secret_key_ref = some ref }

abbrev value_header : Text → Text → ArgoHeader
value_header name value = record { name = name; value = value; secret_key_ref = none }

abbrev pub config_map_ref : Option HttpHeaderValueFrom → Option KeySelector
config_map_ref none = none
config_map_ref (some v) = v.config_map_key_ref

abbrev pub secret_ref : Option HttpHeaderValueFrom → Option SecretSelector
secret_ref none = none
secret_ref (some v) = v.secret_key_ref

-- The switch over the sources of a header value.
abbrev pub header_of : HttpHeader → Option SecretSelector → Option KeySelector → ArgoHeader
header_of h (some secret) cm = secret_header h.name secret
header_of h none (some ref) = value_header h.name (workflow_parameter (cm_param_name ref))
header_of h none none = value_header h.name (translate_expressions h.value)

unfoldable pub build_header : HttpHeader → ArgoHeader
build_header h = header_of h (secret_ref h.value_from) (config_map_ref h.value_from)

unfoldable pub build_http_template : Template → HttpTask → Template
unfolding build_header
build_http_template tmpl ht = record tmpl {
  http = some (record {
    url = translate_expressions ht.url;
    method = if is_empty ht.method then codes "GET" else ht.method;
    body = translate_expressions ht.body;
    headers = map build_header ht.headers;
    success_condition = ht.success_condition;
  });
  outputs = record {
    parameters =
        expression_output agent_task_output_param (codes "response.body")
        ∷ expression_output agent_task_artifact_param (
            codes
              "toJson({statusCode: response.statusCode, headers: response.headers, body: response.body})")
        ∷ [];
    artifacts = [];
  };
}

-- The errors of buildTemplate.
pub data TemplateError : Type 0 where
  marshal_failed agent_task_unsupported no_task_type : TemplateError

pub data Built {ℓ} (A : Type ℓ) : Type ℓ where
  built : A → Built A
  failed : TemplateError → Built A

abbrev pub of_option : Option Template → Built Template
of_option none = failed marshal_failed
of_option (some t) = built t

abbrev pub task_retry : AgentWorkflow → WorkflowTask → Option WorkflowRetryStrategy
task_retry awf task = elim task.retry_strategy [
  | none ↦ awf.spec.retry_strategy
  | some rs ↦ some rs
]

-- The template before its kind is filled in.
unfoldable pub start_template : Runtime → AgentWorkflow → WorkflowTask → Template
unfolding translate_retry_strategy
start_template env awf task = record empty_template {
  name = task.name;
  active_deadline_seconds = map_option (λ d. to_int32 (env.seconds d)) task.timeout;
  retry_strategy = map_option translate_retry_strategy (task_retry awf task);
}

abbrev pub switch_script : Template → Template
switch_script tmpl = record tmpl {
  script = some (record empty_container {
    image = codes "alpine:3.18";
    command = codes "echo" ∷ [];
    args = codes "switch-router" ∷ [];
  });
}

-- The switch over the kind of the task, in the source's order.
abbrev pub fill_template :
    Runtime
    → CompilerOptions
    → Template
    → Option AgentCall
    → Option AgentTask
    → Option ContainerTask
    → Option HttpTask
    → List SwitchCase
    → Built Template
fill_template env opts tmpl (some a) agent_task container http switch =
    of_option (build_agent_template env tmpl a)
fill_template env opts tmpl none (some t) container http switch = failed agent_task_unsupported
fill_template env opts tmpl none none (some c) http switch =
    built (build_container_template tmpl c opts)
fill_template env opts tmpl none none none (some h) switch = built (build_http_template tmpl h)
fill_template env opts tmpl none none none none (sc ∷ scs) = built (switch_script tmpl)
fill_template env opts tmpl none none none none [] = failed no_task_type

unfoldable pub build_template :
    Runtime → AgentWorkflow → WorkflowTask → CompilerOptions → Built Template
unfolding start_template
build_template env awf task opts =
    fill_template env opts (start_template env awf task) task.agent task.agent_task task.container
      task.http task.switch
