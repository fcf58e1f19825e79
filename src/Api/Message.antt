-- ===== src/Api/Message.antt =====
-- The A2A message types of operator/api/v1alpha1/agentworkflow_types.go.
use flokoa.Common.{ℤ, List, Option, Bool, Text}

-- A `map[string]apiextensionsv1.JSON`: the raw JSON text of each value.
abbrev pub RawMap : Type 0
RawMap = List (Text × Text)

pub record TextPart : Type 0 where
  pub text : Text
  pub metadata : RawMap

-- `raw` is `Data.Raw`, the bytes of the JSON value.
pub record DataPart : Type 0 where
  pub raw : Text
  pub metadata : RawMap

pub record FileContent : Type 0 where
  pub name : Text
  pub mime_type : Text
  pub bytes : Text
  pub uri : Text

pub record FilePart : Type 0 where
  pub file : FileContent
  pub metadata : RawMap

pub record MessagePart : Type 0 where
  pub text : Option TextPart
  pub data_part : Option DataPart
  pub file : Option FilePart

pub record AgentMessage : Type 0 where
  pub role : Text
  pub parts : List MessagePart
  pub context_id : Text
  pub reference_task_ids : List Text
  pub extensions : List Text
  pub task_id : Text
  pub metadata : RawMap

pub record PushNotificationAuth : Type 0 where
  pub schemes : List Text
  pub credentials : Text

pub record PushNotificationConfig : Type 0 where
  pub url : Text
  pub id : Text
  pub token : Text
  pub authentication : Option PushNotificationAuth

pub record MessageSendConfig : Type 0 where
  pub accepted_output_modes : List Text
  pub blocking : Option Bool
  pub history_length : Option ℤ
  pub push_notification_config : Option PushNotificationConfig

pub record AgentCall : Type 0 where
  pub name : Text
  pub namespace : Text
  pub text : Text
  pub message : Option AgentMessage
  pub config : Option MessageSendConfig
