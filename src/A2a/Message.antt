-- ===== src/A2a/Message.antt =====
-- What the plugin sends: buildA2AMessage and buildA2ASendConfig of
-- operator/plugins/a2a/plugin/plugin.go. The records have the fields of the a2a-go types that the
-- code sets.
use flokoa.Common.{
  ◌++◌, map_option, ℤ, Bool, List, [], ◌∷◌, Option, none, some, Text, codes, ◌==◌, is_empty,
  if◌then◌else◌,
}
use flokoa.A2a.Spec.{
  Metadata, A2aFileContent, A2aMessagePart, A2aMessage, A2aPushNotificationAuth,
  A2aPushNotificationConfig, A2aSendConfig,
}

pub data Role : Type 0 where
  user agent : Role

pub record FileMeta : Type 0 where
  pub name : Text
  pub mime_type : Text

pub data A2aFile : Type 0 where
  file_uri : FileMeta → Text → A2aFile
  file_bytes : FileMeta → Text → A2aFile

-- The code copies a map of metadata if it has an entry; a nil map has none.
pub data Part : Type 0 where
  text_part : Text → Metadata → Part
  data_part : Metadata → Metadata → Part
  file_part : Option A2aFile → Metadata → Part

-- `id` is what a2a.NewMessage draws.
pub record OutMessage : Type 0 where
  pub id : Text
  pub role : Role
  pub parts : List Part
  pub task_id : Text
  pub context_id : Text
  pub reference_tasks : List Text
  pub extensions : List Text
  pub metadata : Metadata

abbrev pub role_of : Text → Role
role_of r = if r == codes "agent" then agent else user

abbrev pub file_meta : A2aFileContent → FileMeta
file_meta f = record { name = f.name; mime_type = f.mime_type }

abbrev pub file_of : A2aFileContent → Option A2aFile
file_of f =
    if is_empty f.uri
    then if is_empty f.bytes then none else some (file_bytes (file_meta f) f.bytes)
    else some (file_uri (file_meta f) f.uri)

-- The switch over the fields of a part; a part with none of them is left out.
abbrev pub build_part : A2aMessagePart → List Part
build_part p = elim p.text [
  | some t ↦ text_part t.text t.metadata ∷ []
  | none ↦ elim p.content [
    | some d ↦ data_part d.content d.metadata ∷ []
    | none ↦ elim p.file [ some f ↦ file_part (file_of f.file) f.metadata ∷ [] | none ↦ [] ]
  ]
]

unfoldable pub build_parts : List A2aMessagePart → List Part
build_parts [] = []
build_parts (p ∷ ps) = build_part p ++ build_parts ps

unfoldable pub build_a2a_message : Text → A2aMessage → OutMessage
unfolding build_parts ◌==◌
build_a2a_message id msg = record {
  id = id;
  role = role_of msg.role;
  parts = build_parts msg.parts;
  task_id = msg.task_id;
  context_id = msg.context_id;
  reference_tasks = msg.reference_task_ids;
  extensions = msg.extensions;
  metadata = msg.metadata;
}

pub record PushAuthInfo : Type 0 where
  pub schemes : List Text
  pub credentials : Text

pub record OutPushConfig : Type 0 where
  pub url : Text
  pub id : Text
  pub token : Text
  pub auth : Option PushAuthInfo

pub record OutSendConfig : Type 0 where
  pub accepted_output_modes : List Text
  pub blocking : Option Bool
  pub history_length : Option ℤ
  pub push_config : Option OutPushConfig

abbrev pub build_auth : A2aPushNotificationAuth → PushAuthInfo
build_auth a = record { schemes = a.schemes; credentials = a.credentials }

abbrev pub build_push : A2aPushNotificationConfig → OutPushConfig
build_push c = record {
  url = c.url;
  id = c.id;
  token = c.token;
  auth = map_option build_auth c.authentication;
}

unfoldable pub build_a2a_send_config : Option A2aSendConfig → Option OutSendConfig
build_a2a_send_config none = none
build_a2a_send_config (some c) = some (record {
  accepted_output_modes = c.accepted_output_modes;
  blocking = c.blocking;
  history_length = c.history_length;
  push_config = map_option build_push c.push_notification_config;
})
