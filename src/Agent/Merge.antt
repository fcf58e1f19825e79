-- ===== src/Agent/Merge.antt =====
-- The layers of a document: operator/internal/app/agent/compiler/merge.go.
use flokoa.Common.{
  ℤ, List, [], ◌∷◌, ◌++◌, map, Option, none, some, Text, codes, is_empty, is_set, Bool, false,
  if◌then◌else◌,
}
use flokoa.Common.Dict.{lookup, without, put, put_all}
use flokoa.Agent.Types.{ModelSettings, NativeCapabilityEntry, AgentSpecFragment}
use flokoa.Agent.Value.{
  capability_entry, Value, bool, integer, decimal, text, list, object, Doc, values, items, entries,
  fields, texts, Codec,
}

-- An entry for a typed setting that is set.
abbrev pub integer_entry : Text → Option ℤ → Doc
integer_entry k none = []
integer_entry k (some n) = (k, integer n) ∷ []

abbrev pub decimal_entry : Text → Text → Doc
decimal_entry k t = if is_empty t then [] else (k, decimal t) ∷ []

abbrev pub bool_entry : Text → Option Bool → Doc
bool_entry k none = []
bool_entry k (some b) = (k, bool b) ∷ []

abbrev pub texts_entry : Text → List Text → Doc
texts_entry k [] = []
texts_entry k (t ∷ ts) = (k, texts (t ∷ ts)) ∷ []

abbrev pub biases : List (Text × ℤ) → Doc
biases m = map (λ x. (x.0, integer x.1)) m

abbrev pub headers : List (Text × Text) → Doc
headers m = map (λ x. (x.0, text x.1)) m

abbrev pub object_entry : Text → Doc → Doc
object_entry k [] = []
object_entry k (e ∷ m) = (k, object (entries (e ∷ m))) ∷ []

-- The typed settings that are set, their keys all different.
unfoldable pub typed_settings : ModelSettings → Doc
unfolding values entries
typed_settings s =
    integer_entry (codes "max_tokens") s.max_tokens
    ++ decimal_entry (codes "temperature") s.temperature
    ++ decimal_entry (codes "top_p") s.top_p
    ++ integer_entry (codes "top_k") s.top_k
    ++ integer_entry (codes "timeout") s.timeout_seconds
    ++ bool_entry (codes "parallel_tool_calls") s.parallel_tool_calls
    ++ integer_entry (codes "seed") s.seed
    ++ decimal_entry (codes "presence_penalty") s.presence_penalty
    ++ decimal_entry (codes "frequency_penalty") s.frequency_penalty
    ++ object_entry (codes "logit_bias") (biases s.logit_bias)
    ++ texts_entry (codes "stop_sequences") s.stop_sequences
    ++ object_entry (codes "extra_headers") (headers s.extra_headers)

-- An error of Unmarshal leaves no entry.
abbrev pub or_nothing : Option Doc → Doc
or_nothing none = []
or_nothing (some m) = m

abbrev pub extra_settings : Codec → Option Text → Doc
extra_settings c none = []
extra_settings c (some raw) = or_nothing (c.json_object raw)

unfoldable pub settings_to_map : Codec → ModelSettings → Doc
unfolding put_all typed_settings
settings_to_map c s = put_all (typed_settings s) (put_all (extra_settings c s.extra) [])

-- `doc["model_settings"].(map[string]any)`
abbrev pub as_object : Option Value → Option Doc
as_object (some (object m)) = some (fields m)
as_object _ = none

abbrev pub as_list : Option Value → List Value
as_list (some (list vs)) = items vs
as_list _ = []

abbrev pub model_settings_key : Text
model_settings_key = codes "model_settings"

abbrev pub capabilities_key : Text
capabilities_key = codes "capabilities"

abbrev pub capability_list : Doc → List Value
capability_list doc = as_list (lookup capabilities_key doc)

-- `doc["capabilities"] = append(capabilityList(doc), v)`
unfoldable pub add_capability : Value → Doc → Doc
unfolding lookup put values items
add_capability v doc = put capabilities_key (list (values (capability_list doc ++ v ∷ []))) doc

-- `if text != "" { doc[key] = text }`
abbrev pub put_text : Text → Text → Doc → Doc
put_text key t doc = if is_empty t then doc else put key (text t) doc

abbrev pub put_schema_object : Option Doc → Doc → Doc
put_schema_object none doc = doc
put_schema_object (some schema) doc = put (codes "output_schema") (object (entries schema)) doc

abbrev pub put_schema : Codec → Option Text → Doc → Doc
put_schema c none doc = doc
put_schema c (some raw) doc = put_schema_object (c.json_object raw) doc

abbrev pub over_existing : Doc → Option Doc → Doc
over_existing settings none = settings
over_existing settings (some existing) = put_all settings existing

-- The fragment's settings over those of the document.
unfoldable pub put_settings : Doc → Doc → Doc
unfolding lookup put put_all entries fields
put_settings [] doc = doc
put_settings (e ∷ settings) doc =
    put model_settings_key
      (object (entries (over_existing (e ∷ settings) (as_object (lookup model_settings_key doc)))))
      doc

unfoldable pub apply_settings : Codec → Option ModelSettings → Doc → Doc
unfolding settings_to_map put_settings
apply_settings c none doc = doc
apply_settings c (some s) doc = put_settings (settings_to_map c s) doc

abbrev pub native_entry : Codec → NativeCapabilityEntry → Value
native_entry c e = capability_entry e.name (extra_settings c e.config)

unfoldable pub add_capabilities : List Value → Doc → Doc
unfolding add_capability
add_capabilities [] doc = doc
add_capabilities (v ∷ vs) doc = add_capabilities vs (add_capability v doc)

unfoldable pub apply_fragment : Codec → AgentSpecFragment → Doc → Doc
unfolding put apply_settings add_capabilities
apply_fragment c frag doc = add_capabilities (map (native_entry c) frag.capabilities) (
    apply_settings c frag.model_settings (
      put_schema c frag.output_schema (
        put_text (codes "description") frag.description
          (put_text (codes "name") frag.name (put_text (codes "model") frag.model doc)))))

-- The items of a list that are texts.
unfoldable pub text_items : List Value → List Text
text_items [] = []
text_items (text t ∷ vs) = t ∷ text_items vs
text_items (_ ∷ vs) = text_items vs

abbrev pub instructions_key : Text
instructions_key = codes "instructions"

-- What the switch on `doc["instructions"]` gives, and the document after it.
abbrev pub extra_instructions : Option Value → Doc → List Text × Doc
extra_instructions (some (text t)) doc = (t ∷ [], without instructions_key doc)
extra_instructions (some (list vs)) doc = (text_items (items vs), without instructions_key doc)
extra_instructions _ doc = ([], doc)

abbrev pub instructions_of : Option AgentSpecFragment → List Text
instructions_of none = []
instructions_of (some frag) = frag.instructions

unfoldable pub fragment_instructions : Option AgentSpecFragment → Doc → List Text × Doc
unfolding lookup
fragment_instructions frag doc = elim (instructions_of frag) [
  | [] ↦ extra_instructions (lookup instructions_key doc) doc
  | t ∷ ts ↦ (t ∷ ts, doc)
]

abbrev pub tool_timeout_key : Text
tool_timeout_key = codes "tool_timeout"

unfoldable pub fragment_sets_tool_timeout : Codec → Option AgentSpecFragment → Bool
unfolding lookup
fragment_sets_tool_timeout c none = false
fragment_sets_tool_timeout c (some frag) =
    is_set (lookup tool_timeout_key (extra_settings c frag.extra))
