-- ===== src/A2a/Execute.antt =====
-- ExecuteTemplate, sendTask and pollTask of operator/plugins/a2a/plugin/plugin.go, and Resolve of
-- operator/plugins/a2a/plugin/resolver.go. Traces and logs are left out.
pub mod Steps
pub mod Life
pub mod Polls
use flokoa.Common.{
  ℕ, suc, Bool, true, false, List, [], ◌∷◌, ◌++◌, Option, none, some, Text, codes, is_empty, ltb,
  ◌⊎◌, inl, inr, if◌then◌else◌,
}
use flokoa.Common.Dict.{put}
use flokoa.A2a.Spec.{
  A2aSpec, Decoder, SpecError, Parsed, parsed, malformed, parse_a2a_spec, get_timeout,
}
use flokoa.A2a.Message.{OutMessage, OutSendConfig, build_a2a_message, build_a2a_send_config}
use flokoa.A2a.Endpoints.{endpoint_candidates}
use flokoa.A2a.Store.{
  ProgressState, Codec, Api, StateStore, task_key, is_timed_out, store, load, delete,
}
use flokoa.A2a.Reply.{
  TaskState, A2aTask, NodePhase, running, succeeded, node_failed, A2aOutputs, ReplyMessage,
  submitted, in_state, phase_of, message_of_state, extract_result_from_task, extract_artifact_json,
}

pub record SendParams : Type 0 where
  pub message : OutMessage
  pub config : Option OutSendConfig

-- The results of SendMessage; a pointer may be nil. A message has a task and a context.
pub data SendResult : Type 0 where
  sent_task : Option A2aTask → SendResult
  sent_message : Option (Text × Text) → SendResult
  sent_other : SendResult

-- What one call of the plugin meets: the clock; the status.url of an Agent with a namespace and a
-- name, or the error; whether a client can be made for an endpoint; the answer to a message at an
-- endpoint, and to a query for a task; `none` for an error. `terminal` is TaskState.Terminal.
pub record World : Type 0 where
  pub now : ℕ
  pub agent_url : Text → Text → Option Text
  pub connects : Text → Bool
  pub send_message : Text → SendParams → Option SendResult
  pub get_task : Text → Text → Option A2aTask
  pub terminal : TaskState → Bool
  pub message_id : Text
  pub child_traceparent : Text
  pub api : Api

-- What the plugin fails with.
pub data Failure : Type 0 where
  bad_spec : SpecError → Failure
  unresolved send_failed nil_task nil_message no_task_id unexpected_response timed_out no_client :
      Failure
  get_task_failed : ℕ → Failure

pub data Note : Type 0 where
  note : ReplyMessage → Note
  failure : Failure → Note
  poll_error : ℕ → Note

-- `requeue` is whether the reply asks for another call, after DefaultPollInterval.
pub record Reply : Type 0 where
  pub phase : NodePhase
  pub note : Note
  pub outputs : Option A2aOutputs
  pub requeue : Bool

-- The store, and the messages that were given to SendMessage, with their endpoints.
pub record Plugin : Type 0 where
  pub tasks : StateStore
  pub outbox : List (Text × SendParams)

pub record Arguments : Type 0 where
  pub workflow_uid : Text
  pub workflow_namespace : Text
  pub template_name : Text
  pub plugin_value : Option Text

abbrev pub max_poll_errors : ℕ
max_poll_errors = 5

abbrev pub failed_reply : Failure → Reply
failed_reply f = record { phase = node_failed; note = failure f; outputs = none; requeue = false }

abbrev pub requeued : Note → Reply
requeued n = record { phase = running; note = n; outputs = none; requeue = true }

unfoldable pub task_to_reply : A2aTask → Reply
unfolding extract_result_from_task
task_to_reply task = record {
  phase = phase_of task.state;
  note = note (message_of_state task.state task.status_message);
  outputs = some (record {
    result = extract_result_from_task task;
    artifact = extract_artifact_json task.artifacts;
  });
  requeue = false;
}

-- Resolve
abbrev pub published : Option Text → Option Text
published none = none
published (some url) = if is_empty url then none else some url

unfoldable pub resolve : World → Text → Text → Option Text
resolve w agent namespace =
    if is_empty agent
    then none
    else if is_empty namespace
    then none
    else published (w.agent_url namespace agent)

abbrev pub send_params : World → A2aSpec → SendParams
send_params w spec =
    let m = build_a2a_message w.message_id spec.message in
    record {
      message =
          if is_empty w.child_traceparent
          then m
          else record m { metadata = put (codes "traceparent") w.child_traceparent m.metadata };
      config = build_a2a_send_config spec.config;
    }

-- The loop over the candidates: the endpoint that answered and its answer, and the outbox.
unfoldable pub send_to :
    World
    → SendParams
    → List Text
    → List (Text × SendParams)
    → Option (Text × SendResult) × List (Text × SendParams)
send_to w params [] outbox = (none, outbox)
send_to w params (c ∷ cs) outbox = elim (w.connects c) [
  | false ↦ send_to w params cs outbox
  | true ↦ elim (w.send_message c params) [
    | some r ↦ (some (c, r), outbox ++ (c, params) ∷ [])
    | none ↦ send_to w params cs (outbox ++ (c, params) ∷ [])
  ]
]

-- The progress of a task that was accepted, and the reply; or the reply alone.
pub data Answer : Type 0 where
  accepted : Text → Text → Text → Answer
  ended : Reply → Answer

abbrev pub answer_task : World → Text → Option A2aTask → Answer
answer_task w endpoint none = ended (failed_reply nil_task)
answer_task w endpoint (some t) =
    if w.terminal t.state then ended (task_to_reply t) else accepted endpoint t.id t.context_id

abbrev pub answer_message : Text → Option (Text × Text) → Answer
answer_message endpoint none = ended (failed_reply nil_message)
answer_message endpoint (some (task_id, context_id)) =
    if is_empty task_id
    then ended (failed_reply no_task_id)
    else accepted endpoint task_id context_id

abbrev pub answer_of : World → Option (Text × SendResult) → Answer
answer_of w none = ended (failed_reply send_failed)
answer_of w (some (endpoint, sent_task t)) = answer_task w endpoint t
answer_of w (some (endpoint, sent_message m)) = answer_message endpoint m
answer_of w (some (endpoint, sent_other)) = ended (failed_reply unexpected_response)

abbrev pub new_progress : World → A2aSpec → Text → Text → Text → ProgressState
new_progress w spec endpoint task_id context_id = record {
  task_id = task_id;
  context_id = context_id;
  endpoint = endpoint;
  start_time = w.now;
  timeout = get_timeout spec;
  poll_errors = 0;
}

abbrev pub after_answer : Codec → World → Text → A2aSpec → StateStore → Answer → Reply × StateStore
after_answer codec w key spec s (ended r) = (r, s)
after_answer codec w key spec s (accepted endpoint task_id context_id) = (
  requeued (note submitted),
  store codec w.api key (new_progress w spec endpoint task_id context_id) s,
)

-- sendTask
unfoldable pub send_task : Codec → World → Plugin → Text → A2aSpec → Text → Reply × Plugin
send_task codec w p key spec endpoint =
    let (result, outbox) = send_to w (send_params w spec) (endpoint_candidates endpoint) p.outbox in
    let (r, tasks) = after_answer codec w key spec p.tasks (answer_of w result) in
    (r, record { tasks = tasks; outbox = outbox })

-- `progress.PollErrors = n` changes the state that the cache points to, and writes nothing.
unfoldable pub set_poll_errors : Text → ProgressState → ℕ → StateStore → StateStore
unfolding put
set_poll_errors key progress n s = record s {
  cache = put key (record progress { poll_errors = n }) s.cache;
}

abbrev pub poll_failed : Text → ProgressState → StateStore → Reply × StateStore
poll_failed key progress s =
    let n = suc progress.poll_errors in
    (
      if ltb n max_poll_errors then requeued (poll_error n) else failed_reply (get_task_failed n),
      set_poll_errors key progress n s,
    )

abbrev pub poll_answer :
    Codec → World → Text → ProgressState → StateStore → Option A2aTask → Reply × StateStore
poll_answer codec w key progress s none = poll_failed key progress s
poll_answer codec w key progress s (some task) =
    let s' = set_poll_errors key progress 0 s in
    if w.terminal task.state
    then (task_to_reply task, delete codec w.api key s')
    else (requeued (note (in_state task.state)), s')

-- pollTask
unfoldable pub poll_task : Codec → World → StateStore → Text → ProgressState → Reply × StateStore
poll_task codec w s key progress =
    if is_timed_out w.now progress
    then (failed_reply timed_out, delete codec w.api key s)
    else if w.connects progress.endpoint
    then poll_answer codec w key progress s (w.get_task progress.endpoint progress.task_id)
    else (failed_reply no_client, s)

abbrev pub start_task : Codec → World → Plugin → Text → A2aSpec → Option Text → Reply × Plugin
start_task codec w p key spec none = (failed_reply unresolved, p)
start_task codec w p key spec (some endpoint) = send_task codec w p key spec endpoint

abbrev pub resume :
    Codec → World → Plugin → Text → Text → A2aSpec → Option ProgressState → Reply × Plugin
resume codec w p key namespace spec none =
    start_task codec w p key spec (resolve w spec.agent namespace)
resume codec w p key namespace spec (some progress) =
    let (r, tasks) = poll_task codec w p.tasks key progress in (r, record p { tasks = tasks })

abbrev pub or_workflow_namespace : Text → Text → Text
or_workflow_namespace ns workflow_ns = if is_empty ns then workflow_ns else ns

abbrev pub run_spec : Codec → World → Plugin → Arguments → Parsed → Reply × Plugin
run_spec codec w p args (malformed e) = (failed_reply (bad_spec e), p)
run_spec codec w p args (parsed spec) =
    let key = task_key args.workflow_uid args.template_name in
    resume codec w p key (or_workflow_namespace spec.namespace args.workflow_namespace) spec
      (load key p.tasks)

-- ExecuteTemplate
unfoldable pub execute_template : Decoder → Codec → World → Plugin → Arguments → Reply × Plugin
execute_template decoder codec w p args =
    run_spec codec w p args (parse_a2a_spec decoder args.plugin_value)
