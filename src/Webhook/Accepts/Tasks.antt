-- ===== src/Webhook/Accepts/Tasks.antt =====
-- The checks of one agent call, container task and HTTP task.
use flokoa.Common.{
  ℕ, ◌+◌, ◌≡◌, ◌≢◌, refl, ◌↔◌, not, List, [], ◌∷◌, Option, none, some, is_empty, is_set, All, arith,
}
use flokoa.Api.Message.{MessagePart, AgentMessage, AgentCall}
use flokoa.Api.Task.{ContainerTask, HttpHeaderValueFrom, HttpHeader, HttpTask}
use flokoa.Webhook.Errors.{FieldPath, child, index}
use flokoa.Webhook.Tasks.{
  part_type_count, validate_parts, message_errors, validate_agent_call, validate_container_task,
  validate_value_from, validate_headers, validate_http_task,
}
use flokoa.Webhook.Conforms.{
  IfSet, ValidPart, ValidAgentCall, ValidValueFrom, ValidHeader, ValidHttpTask,
}
use flokoa.Webhook.Accepts.Lists.{
  append_iff, error_if_iff, iff_trans, is_empty_iff, two_iff, count_iff,
}

validate_parts_iff :
    (path : FieldPath) (i : ℕ) (ps : List MessagePart)
    → (validate_parts path i ps ≡ []) ↔ All ValidPart ps
unfolding validate_parts
validate_parts_iff path i [] = (λ _. tt, λ _. refl)
validate_parts_iff path i (p ∷ ps) =
    let one =
      count_iff (part_type_count p) (is_set p.text ∷ is_set p.data_part ∷ is_set p.file ∷ [])
        (omega arith) in
    iff_trans
      (append_iff (error_if_iff _ _)
        (append_iff (error_if_iff _ _) (validate_parts_iff path (i + 1) ps)))
      (λ (a, (b, c)). (one.0 (a, b), c), λ (v, c). ((one.1 v).0, ((one.1 v).1, c)))

message_errors_iff :
    (path : FieldPath) (m : Option AgentMessage)
    → (message_errors path m ≡ []) ↔ IfSet (λ x. All ValidPart x.parts) m
message_errors_iff path none = (λ _. tt, λ _. refl)
message_errors_iff path (some m) =
    validate_parts_iff (child (child path "message") "parts") 0 m.parts

pub validate_agent_call_iff :
    (path : FieldPath) (a : AgentCall) → (validate_agent_call path a ≡ []) ↔ ValidAgentCall a
unfolding validate_agent_call
validate_agent_call_iff path a =
    let one = two_iff (not (is_empty a.text)) (is_set a.message) in
    iff_trans
      (append_iff (error_if_iff _ _)
        (append_iff (error_if_iff _ _) (message_errors_iff path a.message)))
      (
        λ (x, (y, z)). record { content = one.0 (x, y); parts = z },
        λ v. ((one.1 v.content).0, ((one.1 v.content).1, v.parts)),
      )

pub validate_container_task_iff :
    (path : FieldPath) (c : ContainerTask) → (validate_container_task path c ≡ []) ↔ (c.image ≢ [])
unfolding validate_container_task
validate_container_task_iff path c = iff_trans (error_if_iff _ _) (is_empty_iff c.image)

validate_value_from_iff :
    (path : FieldPath) (v : Option HttpHeaderValueFrom)
    → (validate_value_from path v ≡ []) ↔ IfSet ValidValueFrom v
unfolding validate_value_from
validate_value_from_iff path none = (λ _. tt, λ _. refl)
validate_value_from_iff path (some v) =
    iff_trans (append_iff (error_if_iff _ _) (error_if_iff _ _))
      (two_iff (is_set v.secret_key_ref) (is_set v.config_map_key_ref))

validate_headers_iff :
    (path : FieldPath) (i : ℕ) (hs : List HttpHeader)
    → (validate_headers path i hs ≡ []) ↔ All ValidHeader hs
unfolding validate_headers
validate_headers_iff path i [] = (λ _. tt, λ _. refl)
validate_headers_iff path i (h ∷ hs) =
    let one = two_iff (not (is_empty h.value)) (is_set h.value_from) in
    iff_trans
      (append_iff (error_if_iff _ _) (
        append_iff (error_if_iff _ _) (
          append_iff (validate_value_from_iff (index path i) h.value_from)
            (validate_headers_iff path (i + 1) hs))))
      (
        λ (a, (b, (c, d))). (record { source = one.0 (a, b); value_from = c }, d),
        λ (v, d). ((one.1 v.source).0, ((one.1 v.source).1, (v.value_from, d))),
      )

pub validate_http_task_iff :
    (path : FieldPath) (h : HttpTask) → (validate_http_task path h ≡ []) ↔ ValidHttpTask h
unfolding validate_http_task
validate_http_task_iff path h =
    iff_trans
      (append_iff (iff_trans (error_if_iff _ _) (is_empty_iff h.url))
        (validate_headers_iff (child path "headers") 0 h.headers))
      (λ (a, b). record { url = a; headers = b }, λ v. (v.url, v.headers))
