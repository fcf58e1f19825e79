-- ===== src/Tests/Sample.antt =====
-- A workflow that asks an agent about a page, and routes on the answer.
use flokoa.Common.{pos, List, [], ◌∷◌, none, some, true, Text, codes}
use flokoa.Api.Message.{AgentCall}
use flokoa.Api.Task.{KeySelector, HttpHeaderValueFrom, HttpHeader, HttpTask, SwitchCase}
use flokoa.Api.Workflow.{WorkflowParam, WorkflowTask, AgentWorkflow}
use flokoa.Compiler.Json.{Runtime}
use flokoa.Compiler.Templates.{CompilerOptions}

-- A task of no kind.
abbrev pub bare_task : Text → List Text → WorkflowTask
bare_task name depends_on = record {
  name = name;
  agent = none;
  agent_task = none;
  container = none;
  http = none;
  switch = [];
  depends_on = depends_on;
  timeout = none;
  retry_strategy = none;
  condition = [];
}

abbrev pub shell_task : Text → List Text → WorkflowTask
shell_task name depends_on = record (bare_task name depends_on) {
  container = some (record {
    image = codes "alpine";
    command = codes "true" ∷ [];
    args = [];
    env = [];
    resources = none;
    working_dir = [];
    volume_mounts = [];
  });
}

abbrev pub token_key : KeySelector
token_key = record { name = codes "settings"; key = codes "api_token" }

abbrev pub token_source : HttpHeaderValueFrom
token_source = record { secret_key_ref = none; config_map_key_ref = some token_key }

abbrev pub token_header : HttpHeader
token_header = record { name = codes "X-Token"; value = []; value_from = some token_source }

abbrev pub page_request : HttpTask
page_request = record {
  url = codes "https://x/{{ params.page }}";
  method = [];
  headers = token_header ∷ [];
  body = [];
  success_condition = [];
}

abbrev pub fetch : WorkflowTask
fetch = record (bare_task (codes "fetch") []) { http = some page_request; timeout = some (pos 5) }

abbrev pub question : AgentCall
question = record {
  name = codes "helper";
  namespace = [];
  text = codes "sum up {{tasks.fetch.output}}";
  message = none;
  config = none;
}

abbrev pub ask : WorkflowTask
ask = record (bare_task (codes "ask") (codes "fetch" ∷ [])) { agent = some question }

abbrev pub good_case : SwitchCase
good_case = record {
  condition = codes "{{tasks.ask.output.ok}} == yes";
  then_task = codes "act";
  default_task = [];
}

abbrev pub default_case : SwitchCase
default_case = record { condition = []; then_task = []; default_task = codes "skip" }

abbrev pub route : WorkflowTask
route = record (bare_task (codes "route") (codes "ask" ∷ [])) {
  switch = good_case ∷ default_case ∷ [];
}

abbrev pub page_param : WorkflowParam
page_param = record { name = codes "page"; description = []; value = codes "1" }

abbrev pub workflow_of : List WorkflowTask → AgentWorkflow
workflow_of tasks = record {
  name = codes "pages";
  namespace = codes "demo";
  spec = record {
    description = [];
    params = page_param ∷ [];
    tasks = tasks;
    timeout = none;
    retry_strategy = none;
    service_account_name = [];
    automount_service_account_token = none;
  };
}

abbrev pub act : WorkflowTask
act = shell_task (codes "act") []

abbrev pub sample_tasks : List WorkflowTask
sample_tasks = fetch ∷ ask ∷ route ∷ act ∷ shell_task (codes "skip") [] ∷ []

abbrev pub sample : AgentWorkflow
sample = workflow_of sample_tasks

-- Two tasks that wait for each other.
abbrev pub circle_tasks : List WorkflowTask
circle_tasks =
    shell_task (codes "a") (codes "b" ∷ []) ∷ shell_task (codes "b") (codes "a" ∷ []) ∷ []

abbrev pub runtime : Runtime
runtime = record {
  is_json = λ t. true;
  marshal = λ j. some (codes "json");
  seconds = λ d. d;
  traceparent = codes "00-0-0-01";
}

abbrev pub options : CompilerOptions
options = record { artifact_io_enabled = true; artifact_gc_strategy = [] }
