-- ===== src/Agent/Settings/Precedence.antt =====
-- The settings of an agent with a fragment and a model reference.
use flokoa.Common.{◌≡◌, refl, sym, ap, ◌∙◌, some, Text, codes, ◌==◌, map}
use flokoa.Common.Dict.{lookup, or_else}
use flokoa.Agent.Types.{AgentSpecFragment, NamespacedRef, Model}
use flokoa.Agent.Value.{Doc, Codec}
use flokoa.Agent.Value.Labels.{some-injective}
use flokoa.Agent.Errors.{ok}
use flokoa.Agent.Errors.Chains.{bind-ok, then-ok, found-ok, ok-injective}
use flokoa.Agent.Providers.{qualified_model_name}
use flokoa.Agent.Merge.{put_text, put_schema, apply_settings, apply_fragment, native_entry}
use flokoa.Agent.Tools.{default_ns}
use flokoa.Agent.References.{Cluster, WithModel, default_model, apply_model_ref}
use flokoa.Agent.Settings.{
  settings_of, set_by, settings_of-put_text, settings_of-schema, settings_of-add_capabilities,
  settings_of-default_model, apply_settings-lookup, apply_base_settings-lookup,
}

module _ (codec : Codec) where
  apply_fragment-lookup :
      (frag : AgentSpecFragment) (doc : Doc) (k : Text)
      → lookup k (settings_of (apply_fragment codec frag doc))
        ≡ or_else (set_by codec frag.model_settings k) (lookup k (settings_of doc))
  unfolding apply_fragment ◌==◌
  apply_fragment-lookup frag doc k =
      let d0 = put_text (codes "model") frag.model doc in
      let d1 = put_text (codes "name") frag.name d0 in
      let d2 = put_text (codes "description") frag.description d1 in
      let d3 = put_schema codec frag.output_schema d2 in
      let d4 = apply_settings codec frag.model_settings d3 in
      let same =
        settings_of-schema codec frag.output_schema d2
        ∙ settings_of-put_text (codes "description") frag.description d1 refl
        ∙ settings_of-put_text (codes "name") frag.name d0 refl
        ∙ settings_of-put_text (codes "model") frag.model doc refl in
      ap (lookup k) (settings_of-add_capabilities (map (native_entry codec) frag.capabilities) d4)
      ∙ apply_settings-lookup codec frag.model_settings d3 k
      ∙ ap (λ m. or_else (set_by codec frag.model_settings k) (lookup k m)) same

  -- Where applyModelRef succeeds after the fragment, every key of the model settings has the value of
  -- the first that sets it: the fragment's typed settings, the extra layer of those, the settings that
  -- the document had before, the typed settings of the referenced Model, the extra layer of those.
  pub apply_model_ref-precedence :
      (cluster : Cluster) (namespace : Text) (ref : NamespacedRef) (frag : AgentSpecFragment)
      (doc : Doc) (model : Model) (m : WithModel) (k : Text)
      → cluster.models (default_ns ref.namespace namespace) ref.name ≡ some model
      → apply_model_ref codec cluster namespace ref (apply_fragment codec frag doc) ≡ ok m
      → lookup k (settings_of m.doc)
        ≡ or_else
            (or_else (set_by codec frag.model_settings k) (lookup k (settings_of doc)))
            (set_by codec model.settings k)
  unfolding apply_model_ref
  apply_model_ref-precedence cluster namespace ref frag doc model m k read h =
      let (model', reading, h1) = bind-ok _ _ _ h in
      let (_, h2) = then-ok _ _ _ h1 in
      let (provider, _, h3) = bind-ok _ _ _ h2 in
      let (resolved, _, h4) = bind-ok _ _ _ h3 in
      let layered = apply_fragment codec frag doc in
      let name = qualified_model_name resolved.model_prefix model'.model in
      let same : model' ≡ model = some-injective (sym read ∙ found-ok _ _ _ reading) in
      ap (λ x. lookup k (settings_of x.doc)) (ok-injective h4)
      ∙ apply_base_settings-lookup codec model'.settings (default_model name layered) k
      ∙ ap (λ s. or_else (lookup k s) (set_by codec model'.settings k))
          (settings_of-default_model name layered)
      ∙ (λ i. or_else (apply_fragment-lookup frag doc k i) (set_by codec (same i).settings k))
