-- ===== src/Agent/Compile/Order.antt =====
-- How each layer of Compile changes the capability entries of the document.
use flokoa.Common.{
  ◌≡◌, refl, sym, ap, ap₂, ◌∙◌, List, [], ◌∷◌, ◌++◌, map, append_assoc, append-nil, Option, none,
  some, Text, codes, ◌==◌, ==_refl, Bool-cases, inl, inr, false,
}
use mathlib.Core.List.{map-append}
use flokoa.Common.Dict.{lookup, put, lookup-put}
use flokoa.Agent.Types.{AgentSpecFragment, ModelSettings, NativeCapabilityEntry, NamespacedRef}
use flokoa.Agent.Value.{
  Value, null, bool, integer, decimal, float, fraction, text, list, object, Doc, Codec, values,
  entries,
}
use flokoa.Agent.Value.Labels.{entry_label, list_labels, entry_label-capability_entry, items-values}
use flokoa.Agent.Merge.{
  capabilities_key, capability_list, add_capability, add_capabilities, as_list, put_text,
  put_schema, put_schema_object, put_settings, apply_settings, apply_fragment, settings_to_map,
  native_entry, extra_settings, model_settings_key, as_object, over_existing,
}
use flokoa.Agent.Errors.{ok}
use flokoa.Agent.Errors.Chains.{bind-ok, then-ok, ok-injective}
use flokoa.Agent.Providers.{qualified_model_name}
use flokoa.Agent.References.{
  Cluster, WithModel, default_model, is_text_set, put_base_settings, under_existing,
  apply_base_settings, apply_model_ref, with_model,
}

-- The names of the capability entries of a document, in order.
abbrev pub labels : Doc → List Text
labels doc = list_labels (lookup capabilities_key doc)

pub labels-put :
    (k : Text) (v : Value) (doc : Doc)
    → (k == capabilities_key) ≡ false
    → labels (put k v doc) ≡ labels doc
labels-put k v doc other = rw (lookup-put k capabilities_key v doc, other) refl

pub list_labels-as_list : (o : Option Value) → list_labels o ≡ map entry_label (as_list o)
list_labels-as_list none = refl
list_labels-as_list (some (list vs)) = refl
list_labels-as_list (some null) = refl
list_labels-as_list (some (bool b)) = refl
list_labels-as_list (some (integer n)) = refl
list_labels-as_list (some (decimal t)) = refl
list_labels-as_list (some (float n)) = refl
list_labels-as_list (some (fraction t)) = refl
list_labels-as_list (some (text t)) = refl
list_labels-as_list (some (object m)) = refl

pub labels-add_capability :
    (v : Value) (doc : Doc) → labels (add_capability v doc) ≡ (labels doc ++ entry_label v ∷ [])
unfolding add_capability
labels-add_capability v doc =
    let new = capability_list doc ++ v ∷ [] in
    rw
      (
        lookup-put capabilities_key capabilities_key (list (values new)) doc,
        ==_refl capabilities_key,
      )
      (ap (map entry_label) (items-values new)
        ∙ map-append entry_label (capability_list doc) (v ∷ [])
        ∙ ap (λ ls. ls ++ entry_label v ∷ [])
            (sym (list_labels-as_list (lookup capabilities_key doc))))

pub labels-add_capabilities :
    (vs : List Value) (doc : Doc)
    → labels (add_capabilities vs doc) ≡ (labels doc ++ map entry_label vs)
unfolding add_capabilities
labels-add_capabilities [] doc = sym (append-nil (labels doc))
labels-add_capabilities (v ∷ vs) doc =
    labels-add_capabilities vs (add_capability v doc)
    ∙ ap (λ ls. ls ++ map entry_label vs) (labels-add_capability v doc)
    ∙ append_assoc (labels doc) (entry_label v ∷ []) (map entry_label vs)

labels-put_text :
    (k t : Text) (doc : Doc)
    → (k == capabilities_key) ≡ false
    → labels (put_text k t doc) ≡ labels doc
labels-put_text k [] doc other = refl
labels-put_text k (c ∷ t) doc other = labels-put k (text (c ∷ t)) doc other

labels-put_schema_object :
    (s : Option Doc) (doc : Doc) → labels (put_schema_object s doc) ≡ labels doc
unfolding ◌==◌
labels-put_schema_object none doc = refl
labels-put_schema_object (some m) doc =
    labels-put (codes "output_schema") (object (entries m)) doc refl

labels-put_schema :
    (c : Codec) (s : Option Text) (doc : Doc) → labels (put_schema c s doc) ≡ labels doc
labels-put_schema c none doc = refl
labels-put_schema c (some raw) doc = labels-put_schema_object (c.json_object raw) doc

labels-put_settings : (m doc : Doc) → labels (put_settings m doc) ≡ labels doc
unfolding put_settings ◌==◌
labels-put_settings [] doc = refl
labels-put_settings (e ∷ m) doc =
    labels-put model_settings_key
      (object (entries (over_existing (e ∷ m) (as_object (lookup model_settings_key doc))))) doc
      refl

labels-apply_settings :
    (c : Codec) (s : Option ModelSettings) (doc : Doc)
    → labels (apply_settings c s doc) ≡ labels doc
unfolding apply_settings
labels-apply_settings c none doc = refl
labels-apply_settings c (some s) doc = labels-put_settings (settings_to_map c s) doc

labels-native :
    (c : Codec) (es : List NativeCapabilityEntry)
    → map entry_label (map (native_entry c) es) ≡ map (λ e. e.name) es
labels-native c [] = refl
labels-native c (e ∷ es) =
    ap₂ (λ n ns. n ∷ ns) (entry_label-capability_entry e.name (extra_settings c e.config))
      (labels-native c es)

pub labels-apply_fragment :
    (c : Codec) (frag : AgentSpecFragment) (doc : Doc)
    → labels (apply_fragment c frag doc) ≡ (labels doc ++ map (λ e. e.name) frag.capabilities)
unfolding apply_fragment ◌==◌
labels-apply_fragment c frag doc =
    let d0 = put_text (codes "model") frag.model doc in
    let d1 = put_text (codes "name") frag.name d0 in
    let d2 = put_text (codes "description") frag.description d1 in
    let d3 = put_schema c frag.output_schema d2 in
    let d4 = apply_settings c frag.model_settings d3 in
    let same =
      labels-apply_settings c frag.model_settings d3
      ∙ labels-put_schema c frag.output_schema d2
      ∙ labels-put_text (codes "description") frag.description d1 refl
      ∙ labels-put_text (codes "name") frag.name d0 refl
      ∙ labels-put_text (codes "model") frag.model doc refl in
    labels-add_capabilities (map (native_entry c) frag.capabilities) d4
    ∙ (λ i. same i ++ labels-native c frag.capabilities i)

labels-default_model : (name : Text) (doc : Doc) → labels (default_model name doc) ≡ labels doc
unfolding ◌==◌
labels-default_model name doc = elim (Bool-cases (is_text_set (lookup (codes "model") doc))) [
  | inl e ↦ rw (e, default_model) refl
  | inr e ↦ rw (e, default_model) (labels-put (codes "model") (text name) doc refl)
]

labels-put_base_settings : (m doc : Doc) → labels (put_base_settings m doc) ≡ labels doc
unfolding put_base_settings ◌==◌
labels-put_base_settings [] doc = refl
labels-put_base_settings (e ∷ m) doc =
    labels-put model_settings_key
      (object (entries (under_existing (e ∷ m) (as_object (lookup model_settings_key doc))))) doc
      refl

labels-apply_base_settings :
    (c : Codec) (s : Option ModelSettings) (doc : Doc)
    → labels (apply_base_settings c s doc) ≡ labels doc
unfolding apply_base_settings
labels-apply_base_settings c none doc = refl
labels-apply_base_settings c (some s) doc = labels-put_base_settings (settings_to_map c s) doc

pub labels-with_model :
    (c : Codec) (cluster : Cluster) (ns : Text) (ref : Option NamespacedRef) (doc : Doc)
    (m : WithModel)
    → with_model c cluster ns ref doc ≡ ok m
    → labels m.doc ≡ labels doc
unfolding apply_model_ref
labels-with_model c cluster ns none doc m h = ap (λ x. labels x.doc) (ok-injective h)
labels-with_model c cluster ns (some ref) doc m h =
    let (model, _, h1) = bind-ok _ _ _ h in
    let (_, h2) = then-ok _ _ _ h1 in
    let (provider, _, h3) = bind-ok _ _ _ h2 in
    let (resolved, _, h4) = bind-ok _ _ _ h3 in
    ap (λ x. labels x.doc) (ok-injective h4)
    ∙ labels-apply_base_settings c model.settings _
    ∙ labels-default_model (qualified_model_name resolved.model_prefix model.model) doc
