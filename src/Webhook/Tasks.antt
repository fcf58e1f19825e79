-- ===== src/Webhook/Tasks.antt =====
-- validateAgentCall, validateContainerTask and validateHTTPTask of
-- operator/internal/webhook/v1alpha1/agentworkflow_webhook.go.
use flokoa.Common.{
  ℕ, ◌+◌, ◌&&◌, not, List, [], ◌∷◌, ◌++◌, Option, none, some, is_empty, is_set, count_one,
  same_code, ltb,
}
use flokoa.Api.Message.{MessagePart, AgentMessage, AgentCall}
use flokoa.Api.Task.{ContainerTask, HttpHeaderValueFrom, HttpHeader, HttpTask}
use flokoa.Webhook.Errors.{FieldPath, child, index, ErrorList, error_if, required, forbidden}

abbrev pub part_type_count : MessagePart → ℕ
part_type_count part =
    count_one (is_set part.text) + count_one (is_set part.data_part) + count_one (is_set part.file)

unfoldable pub validate_parts : FieldPath → ℕ → List MessagePart → ErrorList
validate_parts path i [] = []
validate_parts path i (part ∷ parts) =
    error_if (same_code (part_type_count part) 0)
      (required (index path i) "exactly one of text, data, or file must be set")
    ++ (error_if (ltb 1 (part_type_count part))
          (forbidden (index path i) "only one of text, data, or file may be set per part")
        ++ validate_parts path (i + 1) parts)

abbrev pub message_errors : FieldPath → Option AgentMessage → ErrorList
message_errors path none = []
message_errors path (some m) = validate_parts (child (child path "message") "parts") 0 m.parts

unfoldable pub validate_agent_call : FieldPath → AgentCall → ErrorList
unfolding validate_parts
validate_agent_call path agent =
    let has_text = not (is_empty agent.text) in
    let has_message = is_set agent.message in
    error_if (not has_text && not has_message)
      (required path "one of text or message must be specified")
    ++ (error_if (has_text && has_message)
          (forbidden path "text and message are mutually exclusive")
        ++ message_errors path agent.message)

unfoldable pub validate_container_task : FieldPath → ContainerTask → ErrorList
validate_container_task path ct =
    error_if (is_empty ct.image) (required (child path "image") "image is required")

unfoldable pub validate_value_from : FieldPath → Option HttpHeaderValueFrom → ErrorList
validate_value_from path none = []
validate_value_from path (some v) =
    let has_secret = is_set v.secret_key_ref in
    let has_cm = is_set v.config_map_key_ref in
    error_if (not has_secret && not has_cm)
      (required (child path "valueFrom") "one of secretKeyRef or configMapKeyRef must be specified")
    ++ error_if (has_secret && has_cm) (
        forbidden (child path "valueFrom")
          "secretKeyRef and configMapKeyRef are mutually exclusive")

unfoldable pub validate_headers : FieldPath → ℕ → List HttpHeader → ErrorList
unfolding validate_value_from
validate_headers path i [] = []
validate_headers path i (header ∷ headers) =
    let has_value = not (is_empty header.value) in
    let has_value_from = is_set header.value_from in
    error_if (not has_value && not has_value_from)
      (required (index path i) "one of value or valueFrom must be specified")
    ++ (error_if (has_value && has_value_from)
          (forbidden (index path i) "value and valueFrom are mutually exclusive")
        ++ (validate_value_from (index path i) header.value_from
            ++ validate_headers path (i + 1) headers))

unfoldable pub validate_http_task : FieldPath → HttpTask → ErrorList
unfolding validate_headers
validate_http_task path ht =
    error_if (is_empty ht.url) (required (child path "url") "url is required")
    ++ validate_headers (child path "headers") 0 ht.headers
