-- ===== src/Agent/References.antt =====
-- applyModelRef and applyInstructions of operator/internal/app/agent/compiler/compiler.go.
use flokoa.Common.{
  List, [], ◌∷◌, ◌++◌, Option, none, some, Text, codes, is_empty, Bool, false, not, if◌then◌else◌,
}
use flokoa.Common.Dict.{lookup, put, put_all}
use flokoa.Agent.Types.{
  NamespacedRef, EnvVar, Agent, Model, ModelProvider, AgentTool, ModelSettings,
}
use flokoa.Agent.Value.{Value, text, object, Doc, entries, fields, texts, Codec}
use flokoa.Agent.Providers.{get_provider_type, resolve_provider, qualified_model_name}
use flokoa.Agent.Merge.{
  settings_to_map, as_object, model_settings_key, fragment_instructions, instructions_key,
}
use flokoa.Agent.Tools.{Services, default_ns}
use flokoa.Agent.Attachments.{Registry}
use flokoa.Agent.Errors.{
  Result, ok, ◌>>=◌, ◌>>◌, found, require, permanent, dependency, unsupported_provider,
  model_not_found, model_not_ready, provider_not_found, instruction_not_found,
}

-- The readers, each by namespace and name, `none` for any error. An instruction is its content.
-- `valid` is spec.Validate against the embedded JSON Schema of a runner version, `digest` its
-- SchemaDigest, and `hash` is hash.JSONStruct.
pub record Cluster : Type 0 where
  pub models : Text → Text → Option Model
  pub providers : Text → Text → Option ModelProvider
  pub instructions : Text → Text → Option Text
  pub tools : Text → Text → Option AgentTool
  pub services : Services
  pub registry : Registry
  pub valid : Text → Doc → Bool
  pub digest : Text → Option Text
  pub hash : Doc → Option Text

-- The document with the environment of the provider.
pub record WithModel : Type 0 where
  pub doc : Doc
  pub provider_env : List EnvVar
  pub provider_secret_env : List EnvVar

abbrev pub is_text_set : Option Value → Bool
is_text_set (some (text t)) = not (is_empty t)
is_text_set _ = false

-- `if s, _ := doc["model"].(string); s == ""`
abbrev pub default_model : Text → Doc → Doc
default_model name doc =
    if is_text_set (lookup (codes "model") doc) then doc else put (codes "model") (text name) doc

abbrev pub under_existing : Doc → Option Doc → Doc
under_existing base none = base
under_existing base (some existing) = put_all existing base

-- The document's own settings over those of the model.
unfoldable pub put_base_settings : Doc → Doc → Doc
unfolding lookup put put_all entries fields
put_base_settings [] doc = doc
put_base_settings (e ∷ base) doc =
    put model_settings_key
      (object (entries (under_existing (e ∷ base) (as_object (lookup model_settings_key doc))))) doc

unfoldable pub apply_base_settings : Codec → Option ModelSettings → Doc → Doc
unfolding settings_to_map put_base_settings
apply_base_settings c none doc = doc
apply_base_settings c (some s) doc = put_base_settings (settings_to_map c s) doc

module _ (codec : Codec) (cluster : Cluster) where
  unfoldable pub apply_model_ref : Text → NamespacedRef → Doc → Result WithModel
  unfolding get_provider_type resolve_provider qualified_model_name apply_base_settings put
  apply_model_ref namespace ref doc = do
    let ns = default_ns ref.namespace namespace
    model ← found (dependency (model_not_found ns ref.name)) (cluster.models ns ref.name)
    require (dependency (model_not_ready ns ref.name)) model.ready
    let provider_ns = default_ns model.provider_ref.namespace model.namespace
    provider ←
        found (dependency (provider_not_found provider_ns model.provider_ref.name))
          (cluster.providers provider_ns model.provider_ref.name)
    resolved ←
        found (permanent (unsupported_provider model.provider_ref.name))
          (resolve_provider (get_provider_type provider) provider)
    ok (record {
      doc =
          apply_base_settings codec model.settings
            (default_model (qualified_model_name resolved.model_prefix model.model) doc);
      provider_env = resolved.env_vars;
      provider_secret_env = resolved.secret_env_vars;
    })

  abbrev pub with_model : Text → Option NamespacedRef → Doc → Result WithModel
  with_model namespace none doc =
      ok (record { doc = doc; provider_env = []; provider_secret_env = [] })
  with_model namespace (some ref) doc = apply_model_ref namespace ref doc

abbrev pub put_instructions : List Text → Doc → Doc
put_instructions [] doc = doc
put_instructions (t ∷ ts) doc = put instructions_key (texts (t ∷ ts)) doc

module _ (cluster : Cluster) where
  -- The contents of the references, in their order.
  unfoldable pub ref_contents : Text → List NamespacedRef → Result (List Text)
  ref_contents namespace [] = ok []
  ref_contents namespace (ref ∷ refs) = do
    let ns = default_ns ref.namespace namespace
    content ←
        found (dependency (instruction_not_found ns ref.name)) (cluster.instructions ns ref.name)
    rest ← ref_contents namespace refs
    ok (content ∷ rest)

  unfoldable pub apply_instructions : Agent → Doc → Result Doc
  unfolding ref_contents fragment_instructions put
  apply_instructions agent doc = do
    referenced ← ref_contents agent.namespace agent.spec.instruction_refs
    let (own, doc') = fragment_instructions agent.spec.fragment doc
    ok (put_instructions (referenced ++ own) doc')
