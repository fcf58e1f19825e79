-- ===== src/A2a/Spec.antt =====
-- The plugin's part of a template (operator/plugins/a2a/plugin/types.go) and parseA2ASpec of
-- operator/plugins/a2a/plugin/plugin.go. A value of type any stands as its JSON text.
use flokoa.Common.{
  ℤ, pos, Bool, List, [], ◌∷◌, Option, none, some, Text, codes, is_empty, if◌then◌else◌,
}
use flokoa.Common.Dict.{lookup}

abbrev pub Metadata : Type 0
Metadata = List (Text × Text)

pub record A2aTextPart : Type 0 where
  pub text : Text
  pub metadata : Metadata

-- `content` is the field Data.
pub record A2aDataPart : Type 0 where
  pub content : Metadata
  pub metadata : Metadata

pub record A2aFileContent : Type 0 where
  pub name : Text
  pub mime_type : Text
  pub bytes : Text
  pub uri : Text

pub record A2aFilePart : Type 0 where
  pub file : A2aFileContent
  pub metadata : Metadata

-- `content` is the field Data.
pub record A2aMessagePart : Type 0 where
  pub text : Option A2aTextPart
  pub content : Option A2aDataPart
  pub file : Option A2aFilePart

pub record A2aMessage : Type 0 where
  pub role : Text
  pub parts : List A2aMessagePart
  pub context_id : Text
  pub reference_task_ids : List Text
  pub extensions : List Text
  pub task_id : Text
  pub metadata : Metadata

pub record A2aPushNotificationAuth : Type 0 where
  pub schemes : List Text
  pub credentials : Text

pub record A2aPushNotificationConfig : Type 0 where
  pub url : Text
  pub id : Text
  pub token : Text
  pub authentication : Option A2aPushNotificationAuth

pub record A2aSendConfig : Type 0 where
  pub accepted_output_modes : List Text
  pub blocking : Option Bool
  pub history_length : Option ℤ
  pub push_notification_config : Option A2aPushNotificationConfig

-- A duration is its number of nanoseconds.
pub record A2aSpec : Type 0 where
  pub agent : Text
  pub namespace : Text
  pub message : A2aMessage
  pub config : Option A2aSendConfig
  pub timeout : Option ℤ
  pub traceparent : Text

-- Five minutes.
abbrev pub default_timeout : ℤ
default_timeout = pos 300000000000

abbrev pub or_default : Option ℤ → ℤ
or_default none = default_timeout
or_default (some t) = t

abbrev pub get_timeout : A2aSpec → ℤ
get_timeout s = or_default s.timeout

-- What json.Unmarshal makes of a text: the raw values of an object, and a spec.
pub record Decoder : Type 0 where
  pub raw_object : Text → Option (List (Text × Text))
  pub spec : Text → Option A2aSpec

pub data SpecError : Type 0 where
  no_plugin no_object no_a2a_key no_spec no_agent no_parts : SpecError

pub data Parsed : Type 0 where
  parsed : A2aSpec → Parsed
  malformed : SpecError → Parsed

abbrev pub required_parts : A2aSpec → List A2aMessagePart → Parsed
required_parts s [] = malformed no_parts
required_parts s (p ∷ ps) = parsed s

abbrev pub checked_spec : Option A2aSpec → Parsed
checked_spec none = malformed no_spec
checked_spec (some s) =
    if is_empty s.agent then malformed no_agent else required_parts s s.message.parts

abbrev pub spec_value : Decoder → Option Text → Parsed
spec_value d none = malformed no_a2a_key
spec_value d (some raw) = checked_spec (d.spec raw)

abbrev pub spec_object : Decoder → Option (List (Text × Text)) → Parsed
spec_object d none = malformed no_object
spec_object d (some o) = spec_value d (lookup (codes "a2a") o)

-- The argument is the value of the template's plugin, if it has one.
unfoldable pub parse_a2a_spec : Decoder → Option Text → Parsed
unfolding lookup
parse_a2a_spec d none = malformed no_plugin
parse_a2a_spec d (some value) = spec_object d (d.raw_object value)
