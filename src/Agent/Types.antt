-- ===== src/Agent/Types.antt =====
-- The API types that the compiler of agents reads (operator/api/v1alpha1), with the fields it reads.
use flokoa.Common.{ℤ, Bool, List, Option, Text}

pub record NamespacedRef : Type 0 where
  pub name : Text
  pub namespace : Text

-- corev1.SecretKeySelector and corev1.EnvVar, of which the code makes two forms.
pub record SecretKeySelector : Type 0 where
  pub name : Text
  pub key : Text

pub data EnvSource : Type 0 where
  value : Text → EnvSource
  secret : SecretKeySelector → EnvSource

pub record EnvVar : Type 0 where
  pub name : Text
  pub source : EnvSource

-- `extra` and the other raw fields are the texts of apiextensionsv1.JSON.
pub record ModelSettings : Type 0 where
  pub max_tokens : Option ℤ
  pub temperature : Text
  pub top_p : Text
  pub top_k : Option ℤ
  pub timeout_seconds : Option ℤ
  pub parallel_tool_calls : Option Bool
  pub seed : Option ℤ
  pub presence_penalty : Text
  pub frequency_penalty : Text
  pub logit_bias : List (Text × ℤ)
  pub stop_sequences : List Text
  pub extra_headers : List (Text × Text)
  pub extra : Option Text

pub record NativeCapabilityEntry : Type 0 where
  pub name : Text
  pub config : Option Text

pub record AgentSpecFragment : Type 0 where
  pub model : Text
  pub name : Text
  pub description : Text
  pub instructions : List Text
  pub model_settings : Option ModelSettings
  pub output_schema : Option Text
  pub capabilities : List NativeCapabilityEntry
  pub extra : Option Text

pub record CapabilityAttachment : Type 0 where
  pub ref : NamespacedRef
  pub config : Option Text

pub record AgentSpec : Type 0 where
  pub fragment : Option AgentSpecFragment
  pub model_ref : Option NamespacedRef
  pub instruction_refs : List NamespacedRef
  pub tools : List NamespacedRef
  pub capabilities : List CapabilityAttachment
  pub secret_refs : List (Text × SecretKeySelector)
  pub runner_version : Text

pub record Agent : Type 0 where
  pub name : Text
  pub namespace : Text
  pub spec : AgentSpec

pub record Model : Type 0 where
  pub namespace : Text
  pub model : Text
  pub provider_ref : NamespacedRef
  pub settings : Option ModelSettings
  pub ready : Bool

pub record GoogleProviderSpec : Type 0 where
  pub project : Text
  pub location : Text
  pub service_account_key : Option SecretKeySelector

-- The text of `openai` and `anthropic` is the base URL, that of `bedrock` the region.
pub record ModelProvider : Type 0 where
  pub api_key : Option SecretKeySelector
  pub openai : Option Text
  pub anthropic : Option Text
  pub google : Option GoogleProviderSpec
  pub bedrock : Option Text

pub data McpTransport : Type 0 where
  streamable_http sse : McpTransport

pub record ServiceRef : Type 0 where
  pub name : Text
  pub namespace : Text
  pub port : Option ℤ
  pub port_name : Text

pub record SecretHeader : Type 0 where
  pub name : Text
  pub secret_ref : SecretKeySelector

pub record AgentTool : Type 0 where
  pub name : Text
  pub namespace : Text
  pub description : Text
  pub url : Text
  pub service_ref : Option ServiceRef
  pub path : Text
  pub transport : McpTransport
  pub headers : List (Text × Text)
  pub header_secrets : List SecretHeader
  pub tool_prefix : Text
  pub allowed_tools : List Text
  pub timeout_seconds : Option ℤ

pub data ConditionStatus : Type 0 where
  condition_true condition_false condition_unknown : ConditionStatus

-- `verified` is the status of its condition of type Verified.
pub record Capability : Type 0 where
  pub name : Text
  pub artifact : Text
  pub entrypoint : Text
  pub serialization_name : Text
  pub config_schema : Option Text
  pub permissive : Bool
  pub python : Text
  pub pydantic_ai : Text
  pub flokoa_runner : Text
  pub dependencies : List Text
  pub verified : Option ConditionStatus
