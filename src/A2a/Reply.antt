-- ===== src/A2a/Reply.antt =====
-- The reply to Argo (taskToReply, extractResultFromTask and their helpers of
-- operator/plugins/a2a/plugin/plugin.go).
use mathlib.Core.List.{reverse}
use flokoa.Common.{
  true, false, not, ◌&&◌, Bool, List, [], ◌∷◌, Option, none, some, Text, codes, is_empty,
  if◌then◌else◌,
}
use flokoa.A2a.Message.{Role, user, agent, Part, text_part, data_part, file_part}

-- a2a.TaskState, which is a string.
pub data TaskState : Type 0 where
  completed failed canceled rejected : TaskState
  other_state : Text → TaskState

pub record HistoryMessage : Type 0 where
  pub role : Role
  pub parts : List Part

-- `json` is what json.Marshal makes of the artifact, `none` for its error.
pub record A2aArtifact : Type 0 where
  pub parts : List Part
  pub json : Option Text

-- An a2a.Task that the client gives back. `status_message` is the parts of the status's message.
pub record A2aTask : Type 0 where
  pub id : Text
  pub context_id : Text
  pub state : TaskState
  pub status_message : Option (List Part)
  pub history : List HistoryMessage
  pub artifacts : List A2aArtifact

pub data NodePhase : Type 0 where
  running succeeded node_failed : NodePhase

pub record A2aOutputs : Type 0 where
  pub result : Text
  pub artifact : Text

-- extractTextFromParts: the first text part.
unfoldable pub extract_text_from_parts : List Part → Text
extract_text_from_parts [] = []
extract_text_from_parts (text_part t m ∷ ps) = t
extract_text_from_parts (data_part d m ∷ ps) = extract_text_from_parts ps
extract_text_from_parts (file_part f m ∷ ps) = extract_text_from_parts ps

-- extractArtifactJSON
abbrev pub json_or_empty : Option Text → Text
json_or_empty none = codes "{}"
json_or_empty (some json) = json

abbrev pub extract_artifact_json : List A2aArtifact → Text
extract_artifact_json [] = codes "{}"
extract_artifact_json (a ∷ artifacts) = json_or_empty a.json

-- The loop over the artifacts.
unfoldable pub text_of_artifacts : List A2aArtifact → Text
unfolding extract_text_from_parts
text_of_artifacts [] = []
text_of_artifacts (a ∷ artifacts) =
    let rest = text_of_artifacts artifacts in
    if is_empty (extract_text_from_parts a.parts) then rest else extract_text_from_parts a.parts

abbrev pub is_agent : Role → Bool
is_agent agent = true
is_agent user = false

-- The loop over the history, from its end: a message is looked at after those that follow it.
-- `after` is what the search goes on with.
-- The loop over the history, which goes from the last message to the first; `rest` is what the code
-- goes on with.
unfoldable pub text_of_messages : List HistoryMessage → Text → Text
unfolding extract_text_from_parts
text_of_messages [] rest = rest
text_of_messages (m ∷ ms) rest =
    let later = text_of_messages ms rest in
    if is_agent m.role && not (is_empty (extract_text_from_parts m.parts))
    then extract_text_from_parts m.parts
    else later

abbrev pub text_of_status : Option (List Part) → Text
text_of_status none = []
text_of_status (some parts) = extract_text_from_parts parts

unfoldable pub extract_result_from_task : A2aTask → Text
unfolding text_of_messages text_of_artifacts
extract_result_from_task task =
    if is_empty (text_of_status task.status_message)
    then text_of_messages (reverse task.history) (text_of_artifacts task.artifacts)
    else text_of_status task.status_message

-- The messages of a reply, with what they are formatted from.
pub data ReplyMessage : Type 0 where
  task_succeeded task_failed task_canceled task_rejected submitted : ReplyMessage
  agent_text : Text → ReplyMessage
  unexpected_state in_state : TaskState → ReplyMessage

abbrev pub status_text : ReplyMessage → Option (List Part) → ReplyMessage
status_text message none = message
status_text message (some parts) = agent_text (extract_text_from_parts parts)

abbrev pub phase_of : TaskState → NodePhase
phase_of completed = succeeded
phase_of failed = node_failed
phase_of canceled = node_failed
phase_of rejected = node_failed
phase_of (other_state s) = node_failed

abbrev pub message_of_state : TaskState → Option (List Part) → ReplyMessage
message_of_state completed status = task_succeeded
message_of_state failed status = status_text task_failed status
message_of_state canceled status = task_canceled
message_of_state rejected status = status_text task_rejected status
message_of_state (other_state s) status = unexpected_state (other_state s)
