-- ===== src/Api/Task.antt =====
-- The task types of operator/api/v1alpha1/agentworkflow_types.go.
use flokoa.Common.{ℤ, List, Option, Bool, Text}

-- corev1.EnvVar; `value_from` is the serialised EnvVarSource.
pub record EnvVar : Type 0 where
  pub name : Text
  pub value : Text
  pub value_from : Option Text

-- corev1.SecretKeySelector
pub record SecretSelector : Type 0 where
  pub name : Text
  pub key : Text
  pub optional : Option Bool

-- corev1.ConfigMapKeySelector with the fields that the compiler reads, which are those that it sets.
pub record KeySelector : Type 0 where
  pub name : Text
  pub key : Text

pub record NamespacedRef : Type 0 where
  pub name : Text
  pub namespace : Text

pub record InstructionEntry : Type 0 where
  pub template : Text
  pub instruction_ref : Option NamespacedRef

pub record AgentModelRef : Type 0 where
  pub name : Text
  pub namespace : Text

pub record StructuredIoSchema : Type 0 where
  pub json_schema : Option Text
  pub name : Text
  pub description : Text

pub record ToolRef : Type 0 where
  pub name : Text
  pub namespace : Text

-- `template` is the serialised AgentToolSpec.
pub record ToolEntry : Type 0 where
  pub name : Text
  pub template : Option Text
  pub tool_ref : Option ToolRef

pub record InlineAgentSpec : Type 0 where
  pub name : Text
  pub instructions : Text
  pub model : Option AgentModelRef

pub record AgentTask : Type 0 where
  pub type : Text
  pub instruction : Option InstructionEntry
  pub input : Text
  pub result_type : Option StructuredIoSchema
  pub labels : List Text
  pub multi_label : Option Bool
  pub count : Option ℤ
  pub model : Option AgentModelRef
  pub tools : List ToolEntry
  pub context : List (Text × Text)
  pub agent : Option InlineAgentSpec
  pub image : Text
  pub env : List EnvVar
  pub resources : Option Text

pub record ContainerTask : Type 0 where
  pub image : Text
  pub command : List Text
  pub args : List Text
  pub env : List EnvVar
  pub resources : Option Text
  pub working_dir : Text
  pub volume_mounts : List Text

pub record HttpHeaderValueFrom : Type 0 where
  pub secret_key_ref : Option SecretSelector
  pub config_map_key_ref : Option KeySelector

pub record HttpHeader : Type 0 where
  pub name : Text
  pub value : Text
  pub value_from : Option HttpHeaderValueFrom

pub record HttpTask : Type 0 where
  pub url : Text
  pub method : Text
  pub headers : List HttpHeader
  pub body : Text
  pub success_condition : Text

-- `then_task` and `default_task` are the fields Then and Default.
pub record SwitchCase : Type 0 where
  pub condition : Text
  pub then_task : Text
  pub default_task : Text
