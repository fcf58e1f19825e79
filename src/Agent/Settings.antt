-- ===== src/Agent/Settings.antt =====
-- Which layer a model setting comes from.
pub mod Precedence
use flokoa.Common.{
  ◌≡◌, refl, sym, ap, ap₂, ◌∙◌, List, [], ◌∷◌, ◌++◌, map, Option, none, some, Text, codes, ◌==◌,
  ==_refl, Bool-cases, inl, inr, false, if◌then◌else◌,
}
use flokoa.Common.Dict.{lookup, put, put_all, or_else, lookup-put, lookup-put_all}
use flokoa.Agent.Types.{ModelSettings, AgentSpecFragment, NamespacedRef, Model}
use flokoa.Agent.Value.{Value, text, list, object, Doc, Codec, entries, fields, values}
use flokoa.Agent.Errors.{ok, dependency, model_not_found}
use flokoa.Agent.Errors.Chains.{bind-ok, then-ok, found-ok, ok-injective}
use flokoa.Agent.Providers.{qualified_model_name}
use flokoa.Agent.Merge.{
  typed_settings, extra_settings, settings_to_map, or_nothing, as_object, model_settings_key,
  capabilities_key, add_capability, add_capabilities, put_text, put_schema, put_schema_object,
  over_existing, put_settings, apply_settings, apply_fragment, native_entry, capability_list,
}
use flokoa.Agent.Tools.{default_ns}
use flokoa.Agent.References.{
  Cluster, WithModel, is_text_set, default_model, under_existing, put_base_settings,
  apply_base_settings, apply_model_ref,
}

-- The model settings of a document.
abbrev pub settings_of : Doc → Doc
settings_of doc = or_nothing (as_object (lookup model_settings_key doc))

-- What a ModelSettings has for a key: the typed setting, else the one of its own extra layer.
abbrev pub set_by : Codec → Option ModelSettings → Text → Option Value
set_by c none k = none
set_by c (some s) k = or_else (lookup k (typed_settings s)) (lookup k (extra_settings c s.extra))

fields-entries : (m : Doc) → fields (entries m) ≡ m
unfolding fields entries
fields-entries [] = refl
fields-entries ((k, v) ∷ m) = ap (λ r. (k, v) ∷ r) (fields-entries m)

or_else-none : (o : Option Value) → or_else o none ≡ o
or_else-none none = refl
or_else-none (some v) = refl

settings_to_map-set_by :
    (c : Codec) (s : ModelSettings) (k : Text)
    → lookup k (settings_to_map c s) ≡ set_by c (some s) k
unfolding settings_to_map lookup
settings_to_map-set_by c s k =
    lookup-put_all k (typed_settings s) (put_all (extra_settings c s.extra) [])
    ∙ ap (or_else (lookup k (typed_settings s))) (
        lookup-put_all k (extra_settings c s.extra) []
        ∙ or_else-none (lookup k (extra_settings c s.extra)))

settings_of-put : (m doc : Doc) → settings_of (put model_settings_key (object (entries m)) doc) ≡ m
settings_of-put m doc =
    ap (λ o. or_nothing (as_object o))
      (lookup-put model_settings_key model_settings_key (object (entries m)) doc ∙ (λ i.
        if ==_refl model_settings_key i
        then some (object (entries m))
        else lookup model_settings_key doc))
    ∙ fields-entries m

over_existing-lookup :
    (m : Doc) (o : Option Doc) (k : Text)
    → lookup k (over_existing m o) ≡ or_else (lookup k m) (lookup k (or_nothing o))
unfolding lookup
over_existing-lookup m none k = sym (or_else-none (lookup k m))
over_existing-lookup m (some existing) k = lookup-put_all k m existing

under_existing-lookup :
    (m : Doc) (o : Option Doc) (k : Text)
    → lookup k (under_existing m o) ≡ or_else (lookup k (or_nothing o)) (lookup k m)
unfolding lookup
under_existing-lookup m none k = refl
under_existing-lookup m (some existing) k = lookup-put_all k existing m

put_settings-lookup :
    (m doc : Doc) (k : Text)
    → lookup k (settings_of (put_settings m doc))
      ≡ or_else (lookup k m) (lookup k (settings_of doc))
unfolding put_settings lookup
put_settings-lookup [] doc k = refl
put_settings-lookup (e ∷ m) doc k =
    let o = as_object (lookup model_settings_key doc) in
    ap (lookup k) (settings_of-put (over_existing (e ∷ m) o) doc) ∙ over_existing-lookup (e ∷ m) o k

put_base_settings-lookup :
    (m doc : Doc) (k : Text)
    → lookup k (settings_of (put_base_settings m doc))
      ≡ or_else (lookup k (settings_of doc)) (lookup k m)
unfolding put_base_settings lookup
put_base_settings-lookup [] doc k = sym (or_else-none (lookup k (settings_of doc)))
put_base_settings-lookup (e ∷ m) doc k =
    let o = as_object (lookup model_settings_key doc) in
    ap (lookup k) (settings_of-put (under_existing (e ∷ m) o) doc)
    ∙ under_existing-lookup (e ∷ m) o k

pub apply_settings-lookup :
    (c : Codec) (s : Option ModelSettings) (doc : Doc) (k : Text)
    → lookup k (settings_of (apply_settings c s doc))
      ≡ or_else (set_by c s k) (lookup k (settings_of doc))
unfolding apply_settings
apply_settings-lookup c none doc k = refl
apply_settings-lookup c (some s) doc k =
    put_settings-lookup (settings_to_map c s) doc k
    ∙ ap (λ o. or_else o (lookup k (settings_of doc))) (settings_to_map-set_by c s k)

pub apply_base_settings-lookup :
    (c : Codec) (s : Option ModelSettings) (doc : Doc) (k : Text)
    → lookup k (settings_of (apply_base_settings c s doc))
      ≡ or_else (lookup k (settings_of doc)) (set_by c s k)
unfolding apply_base_settings
apply_base_settings-lookup c none doc k = sym (or_else-none (lookup k (settings_of doc)))
apply_base_settings-lookup c (some s) doc k =
    put_base_settings-lookup (settings_to_map c s) doc k
    ∙ ap (or_else (lookup k (settings_of doc))) (settings_to_map-set_by c s k)

settings_of-other :
    (j : Text) (v : Value) (doc : Doc)
    → (j == model_settings_key) ≡ false
    → settings_of (put j v doc) ≡ settings_of doc
settings_of-other j v doc other =
    ap (λ o. or_nothing (as_object o))
      (lookup-put j model_settings_key v doc
        ∙ (λ i. if other i then some v else lookup model_settings_key doc))

pub settings_of-put_text :
    (j t : Text) (doc : Doc)
    → (j == model_settings_key) ≡ false
    → settings_of (put_text j t doc) ≡ settings_of doc
settings_of-put_text j [] doc other = refl
settings_of-put_text j (c ∷ t) doc other = settings_of-other j (text (c ∷ t)) doc other

settings_of-put_schema :
    (o : Option Doc) (doc : Doc) → settings_of (put_schema_object o doc) ≡ settings_of doc
unfolding ◌==◌
settings_of-put_schema none doc = refl
settings_of-put_schema (some m) doc =
    settings_of-other (codes "output_schema") (object (entries m)) doc refl

pub settings_of-schema :
    (c : Codec) (raw : Option Text) (doc : Doc)
    → settings_of (put_schema c raw doc) ≡ settings_of doc
settings_of-schema c none doc = refl
settings_of-schema c (some raw) doc = settings_of-put_schema (c.json_object raw) doc

pub settings_of-add_capabilities :
    (vs : List Value) (doc : Doc) → settings_of (add_capabilities vs doc) ≡ settings_of doc
unfolding add_capabilities ◌==◌
settings_of-add_capabilities [] doc = refl
settings_of-add_capabilities (v ∷ vs) doc =
    settings_of-add_capabilities vs (add_capability v doc)
    ∙ settings_of-other capabilities_key (list (values (capability_list doc ++ v ∷ []))) doc refl

pub settings_of-default_model :
    (name : Text) (doc : Doc) → settings_of (default_model name doc) ≡ settings_of doc
unfolding ◌==◌
settings_of-default_model name doc = elim (Bool-cases (is_text_set (lookup (codes "model") doc))) [
  | inl e ↦ rw (e, default_model) refl
  | inr e ↦ rw (e, default_model) (settings_of-other (codes "model") (text name) doc refl)
]
