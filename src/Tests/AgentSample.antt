-- ===== src/Tests/AgentSample.antt =====
-- An agent with a tool, an attached Capability and a model, and a cluster that has them.
use flokoa.Common.{pos, [], ◌∷◌, List, none, some, Text, codes, true, false}
use flokoa.Agent.Capability.{RunnerInfo}
use flokoa.Agent.Types.{
  Agent, AgentSpecFragment, AgentTool, Capability, CapabilityAttachment, NamespacedRef,
  SecretHeader, SecretKeySelector, Model, ModelSettings, ModelProvider, streamable_http,
}
use flokoa.Agent.Value.{Codec}
use flokoa.Agent.Errors.{Result, ok, fails}
use flokoa.Agent.Attachments.{Policy, Registry}
use flokoa.Agent.References.{Cluster}

abbrev pub runner : RunnerInfo
runner = record {
  runner_version = codes "1";
  python = codes "3.13";
  pydantic_ai = codes "1.0";
  baseline = (codes "httpx", codes "1") ∷ [];
}

abbrev pub no_text : Text
no_text = []

abbrev pub memory : Capability
memory = record {
  name = codes "memory";
  artifact = codes "registry/memory@sha256:0";
  entrypoint = codes "m:Memory";
  serialization_name = no_text;
  config_schema = none;
  permissive = true;
  python = no_text;
  pydantic_ai = no_text;
  flokoa_runner = no_text;
  dependencies = codes "a==1" ∷ codes "A==1" ∷ [];
  verified = none;
}

abbrev pub key_of : Text → SecretKeySelector
key_of name = record { name = name; key = codes "k" }

abbrev pub tool : Text → List SecretHeader → AgentTool
tool name secrets = record {
  name = name;
  namespace = codes "n";
  description = no_text;
  url = codes "http://t";
  service_ref = none;
  path = no_text;
  transport = streamable_http;
  headers = [];
  header_secrets = secrets;
  tool_prefix = no_text;
  allowed_tools = [];
  timeout_seconds = none;
}

abbrev pub h : SecretHeader
h = record { name = codes "Key"; secret_ref = key_of (codes "one") }

abbrev pub k : SecretHeader
k = record { name = codes "b-Key"; secret_ref = key_of (codes "two") }

abbrev pub tool_ab : AgentTool
tool_ab = tool (codes "a-b") (h ∷ [])

abbrev pub tool_a : AgentTool
tool_a = tool (codes "a") (k ∷ [])

abbrev pub codec : Codec
codec = record {
  json_object = λ t. none;
  yaml_object = λ t. none;
  is_number = λ t. true;
  write_integer = λ n. codes "0";
  write_fraction = λ t. t;
  exceeds = λ n t. false;
}

abbrev pub registry : Registry
registry = record {
  reader = some (λ ns name. some memory);
  baselines = λ v. some runner;
  pep440 = record { is_specifier = λ t. true; is_version = λ t. true; admits = λ s v. true };
  config_fits = λ s c. true;
}

abbrev pub cluster : Cluster
cluster = record {
  models = λ ns n. none;
  providers = λ ns n. none;
  instructions = λ ns n. some (codes "Be brief.");
  tools = λ ns n. some tool_ab;
  services = λ ns n. none;
  registry = registry;
  valid = λ v d. true;
  digest = λ v. some (codes "d");
  hash = λ d. some (codes "h");
}

abbrev pub policy : Policy
policy = record {
  default_runner_version = codes "1";
  injected = record { name = codes "Guard"; config = [] } ∷ [];
  require_verified = false;
}

abbrev pub ref : Text → NamespacedRef
ref name = record { name = name; namespace = no_text }

abbrev pub attachment : CapabilityAttachment
attachment = record { ref = ref (codes "memory"); config = none }

abbrev pub fragment : AgentSpecFragment
fragment = record {
  model = codes "openai:m";
  name = no_text;
  description = no_text;
  instructions = codes "Be kind." ∷ [];
  model_settings = none;
  output_schema = none;
  capabilities = record { name = codes "Search"; config = none } ∷ [];
  extra = none;
}

abbrev pub agent : Agent
agent = record {
  name = codes "bot";
  namespace = codes "n";
  spec = record {
    fragment = some fragment;
    model_ref = none;
    instruction_refs = ref (codes "style") ∷ [];
    tools = ref (codes "a-b") ∷ [];
    capabilities = attachment ∷ [];
    secret_refs = [];
    runner_version = no_text;
  };
}

abbrev pub value_or {ℓ} : {A : Type ℓ} → A → Result A → A
value_or d (ok a) = a
value_or d (fails e) = d

abbrev pub no_settings : ModelSettings
no_settings = record {
  max_tokens = none;
  temperature = no_text;
  top_p = no_text;
  top_k = none;
  timeout_seconds = none;
  parallel_tool_calls = none;
  seed = none;
  presence_penalty = no_text;
  frequency_penalty = no_text;
  logit_bias = [];
  stop_sequences = [];
  extra_headers = [];
  extra = none;
}

abbrev pub warm : ModelSettings
warm = record no_settings { temperature = codes "0.9"; max_tokens = some (pos 7) }

abbrev pub cool : ModelSettings
cool = record no_settings { temperature = codes "0.1" }

abbrev pub model : Model
model = record {
  namespace = codes "n";
  model = codes "gpt";
  provider_ref = ref (codes "p");
  settings = some warm;
  ready = true;
}

abbrev pub provider : ModelProvider
provider = record {
  api_key = none;
  openai = some no_text;
  anthropic = none;
  google = none;
  bedrock = none;
}

abbrev pub with_models : Cluster
with_models = record cluster { models = λ ns n. some model; providers = λ ns n. some provider }

abbrev pub cool_fragment : AgentSpecFragment
cool_fragment = record fragment { model_settings = some cool }
