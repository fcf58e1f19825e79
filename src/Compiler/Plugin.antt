-- ===== src/Compiler/Plugin.antt =====
-- The A2A plugin spec: buildPluginMessage, buildPluginSendConfig, rawJSONMapToAny,
-- translateAgentMessage and buildAgentTemplate of
-- operator/internal/controller/agentworkflow_compiler.go.
use flokoa.Common.{
  Bool, true, List, [], ◌∷◌, map, Option, none, some, Text, codes, nonempty, if◌then◌else◌,
}
use flokoa.Api.Message.{
  RawMap, TextPart, DataPart, FileContent, FilePart, MessagePart, AgentMessage,
  PushNotificationAuth, PushNotificationConfig, MessageSendConfig, AgentCall,
}
use flokoa.Compiler.Argo.{Template, Parameter, empty_parameter, empty_value_from}
use flokoa.Compiler.Json.{
  Json, bool, num, str, bytes, decoded, arr, obj, Items, nil, cons, Fields, end, field, texts,
  Runtime,
}
use flokoa.Compiler.Expressions.{
  translate_expressions, agent_task_output_param, agent_task_artifact_param, workflow_parameter,
}

abbrev pub traceparent_workflow_param : Text
traceparent_workflow_param = codes "_flokoa_traceparent"

-- `if keep { m[key] = value }`, before the keys that are set later.
abbrev pub field_if : Bool → Text → Json → Fields → Fields
field_if keep key value rest = if keep then field key value rest else rest

module _ (env : Runtime) where
  -- Entries that are no JSON are left out.
  pub raw_fields : RawMap → Fields
  raw_fields [] = end
  raw_fields ((key, raw) ∷ m) = field_if (env.is_json raw) key (decoded raw) (raw_fields m)

  pub raw_json_map_to_any : RawMap → Json
  raw_json_map_to_any m = obj (raw_fields m)

  abbrev pub metadata_field : RawMap → Fields → Fields
  metadata_field m rest = field_if (nonempty m) (codes "metadata") (raw_json_map_to_any m) rest

  abbrev pub text_field : Option TextPart → Fields → Fields
  text_field none rest = rest
  text_field (some t) rest =
      field (codes "text") (obj (field (codes "text") (str t.text) (metadata_field t.metadata end)))
        rest

  -- `p.Data.Data.Raw` is a []byte.
  abbrev pub data_field : Option DataPart → Fields → Fields
  data_field none rest = rest
  data_field (some d) rest =
      field (codes "data")
        (obj (field (codes "data") (bytes d.raw) (metadata_field d.metadata end))) rest

  abbrev pub file_content : FileContent → Json
  file_content f = obj (
      field (codes "name") (str f.name) (
        field (codes "mimeType") (str f.mime_type)
          (field (codes "bytes") (str f.bytes) (field (codes "uri") (str f.uri) end))))

  abbrev pub file_field : Option FilePart → Fields → Fields
  file_field none rest = rest
  file_field (some f) rest =
      field (codes "file")
        (obj (field (codes "file") (file_content f.file) (metadata_field f.metadata end))) rest

  abbrev pub plugin_part : MessagePart → Json
  plugin_part p = obj (text_field p.text (data_field p.data_part (file_field p.file end)))

  pub plugin_parts : List MessagePart → Items
  plugin_parts [] = nil
  plugin_parts (p ∷ ps) = cons (plugin_part p) (plugin_parts ps)

  pub build_plugin_message : AgentMessage → Json
  build_plugin_message msg = obj (
      field_if (nonempty msg.role) (codes "role") (str msg.role) (
        field (codes "parts") (arr (plugin_parts msg.parts)) (
          field_if (nonempty msg.context_id) (codes "contextId") (str msg.context_id) (
            field_if (nonempty msg.reference_task_ids) (codes "referenceTaskIds")
              (texts msg.reference_task_ids)
              (field_if (nonempty msg.extensions) (codes "extensions") (texts msg.extensions) (
                field_if (nonempty msg.task_id) (codes "taskId") (str msg.task_id)
                  (metadata_field msg.metadata end)))))))

abbrev pub auth_field : Option PushNotificationAuth → Fields
auth_field none = end
auth_field (some a) =
    field (codes "authentication")
      (obj (
        field (codes "schemes") (texts a.schemes)
          (field (codes "credentials") (str a.credentials) end)))
      end

abbrev pub push_field : Option PushNotificationConfig → Fields
push_field none = end
push_field (some p) =
    field (codes "pushNotificationConfig")
      (obj (
        field (codes "url") (str p.url) (
          field_if (nonempty p.id) (codes "id") (str p.id) (
            field_if (nonempty p.token) (codes "token") (str p.token)
              (auth_field p.authentication)))))
      end

abbrev pub optional_field {ℓ} : {A : Type ℓ} → Option A → Text → (A → Json) → Fields → Fields
optional_field none key f rest = rest
optional_field (some a) key f rest = field key (f a) rest

unfoldable pub build_plugin_send_config : MessageSendConfig → Json
build_plugin_send_config cfg = obj (
    field_if (nonempty cfg.accepted_output_modes) (codes "acceptedOutputModes")
      (texts cfg.accepted_output_modes)
      (optional_field cfg.blocking (codes "blocking") bool (
        optional_field cfg.history_length (codes "historyLength") num
          (push_field cfg.push_notification_config))))

abbrev pub translate_part : MessagePart → MessagePart
translate_part p = record {
  text = elim p.text [
    | none ↦ none
    | some t ↦ some (record t { text = translate_expressions t.text })
  ];
  data_part = p.data_part;
  file = p.file;
}

unfoldable pub translate_agent_message : AgentMessage → AgentMessage
translate_agent_message msg = record msg { parts = map translate_part msg.parts }

-- The text shorthand is a message of one text part.
abbrev pub message_of : AgentCall → AgentMessage
message_of agent = elim agent.message [
  | some m ↦ m
  | none ↦ record {
    role = [];
    parts =
        record {
          text = some (record { text = agent.text; metadata = [] });
          data_part = none;
          file = none;
        }
        ∷ [];
    context_id = [];
    reference_task_ids = [];
    extensions = [];
    task_id = [];
    metadata = [];
  }
]

abbrev pub supplied_output : Text → Parameter
supplied_output name = record empty_parameter {
  name = name;
  value_from = some (record empty_value_from { supplied = true });
}

-- The JSON that is marshalled.
unfoldable pub plugin_data : Runtime → AgentCall → Json
unfolding build_plugin_message plugin_parts raw_json_map_to_any raw_fields build_plugin_send_config
    translate_agent_message
plugin_data env agent = obj (
    field (codes "a2a")
      (obj (
        field (codes "agent") (str agent.name) (
          field (codes "message")
            (build_plugin_message env (translate_agent_message (message_of agent)))
            (field (codes "traceparent") (str (workflow_parameter traceparent_workflow_param)) (
              field_if (nonempty agent.namespace) (codes "namespace") (str agent.namespace)
                (optional_field agent.config (codes "config") build_plugin_send_config end))))))
      end)

-- The template with the plugin spec; the executor plugin supplies its outputs.
abbrev pub agent_template : Template → Text → Template
agent_template tmpl json = record tmpl {
  plugin = some json;
  outputs = record {
    parameters =
        supplied_output agent_task_output_param ∷ supplied_output agent_task_artifact_param ∷ [];
    artifacts = [];
  };
}

-- `none` is the error of json.Marshal.
unfoldable pub build_agent_template : Runtime → Template → AgentCall → Option Template
unfolding plugin_data
build_agent_template env tmpl agent = elim (env.marshal (plugin_data env agent)) [
  | none ↦ none
  | some json ↦ some (agent_template tmpl json)
]
