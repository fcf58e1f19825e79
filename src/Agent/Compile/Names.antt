-- ===== src/Agent/Compile/Names.antt =====
-- The order of the capability entries that Compile makes.
use flokoa.Common.{
  suc, ◌≡◌, refl, sym, ap, ap₂, ◌∙◌, List, [], ◌∷◌, ◌++◌, map, length, append-nil, Option, none,
  some, Text, codes, ◌==◌,
}
use flokoa.Common.Dict.{put}
use flokoa.Agent.Types.{Agent, AgentSpecFragment, AgentTool, EnvVar}
use flokoa.Agent.Value.{Value, text, Doc, Codec, canonicalize}
use flokoa.Agent.Value.Labels.{entry_label, canonicalize-labels, entry_label-capability_entry}
use flokoa.Agent.Errors.{ok}
use flokoa.Agent.Errors.Chains.{bind-ok, then-ok, found-ok, ok-injective}
use flokoa.Agent.Merge.{add_capabilities, capabilities_key}
use flokoa.Agent.Attachments.{CapabilityArtifact, InjectedCapability, Policy}
use flokoa.Agent.Attachments.Resolved.{resolve_capabilities-labels}
use flokoa.Agent.References.{Cluster, WithModel, with_model, apply_instructions}
use flokoa.Agent.Compile.{
  Compiled, Merged, merge_layers, finish, injected_entry, fragment_doc, extra_doc, extra_of,
  apply_tools, splice_attached, compile, runner_version_of,
}
use flokoa.Agent.Compile.Instructions.{labels-apply_instructions}
use flokoa.Agent.Compile.Order.{
  labels, labels-put, labels-add_capabilities, labels-apply_fragment, labels-with_model,
}
use flokoa.Agent.Compile.Steps.{tool_label, AreRead, splice_attached-labels, apply_tools-labels}

abbrev pub native_names : Option AgentSpecFragment → List Text
native_names none = []
native_names (some frag) = map (λ e. e.name) frag.capabilities

labels-fragment_doc :
    (c : Codec) (frag : Option AgentSpecFragment) (doc : Doc)
    → labels (fragment_doc c frag doc) ≡ (labels doc ++ native_names frag)
labels-fragment_doc c none doc = sym (append-nil (labels doc))
labels-fragment_doc c (some frag) doc = labels-apply_fragment c frag doc

labels-injected :
    (cs : List InjectedCapability) → map entry_label (map injected_entry cs) ≡ map (λ c. c.name) cs
labels-injected [] = refl
labels-injected (c ∷ cs) =
    ap₂ (λ n ns. n ∷ ns) (entry_label-capability_entry c.name c.config) (labels-injected cs)

length-injected :
    (cs : List InjectedCapability)
    → length (map (λ (c : InjectedCapability). c.name) cs) ≡ length cs
length-injected [] = refl
length-injected (c ∷ cs) = ap suc (length-injected cs)

module _ (codec : Codec) (cluster : Cluster) (policy : Policy) (agent : Agent) where
  abbrev named : Doc → Doc
  named extra = put (codes "name") (text agent.name) extra

  abbrev layered : Doc → Doc
  layered extra = fragment_doc codec agent.spec.fragment (named extra)

  record Layers (m : Merged) : Type 0 where
    extra : Doc
    is_extra : extra_doc codec (extra_of agent.spec.fragment) ≡ ok extra
    modelled : WithModel
    modelling :
        with_model codec cluster agent.namespace agent.spec.model_ref (layered extra) ≡ ok modelled
    instructed : Doc
    instructing : apply_instructions cluster agent modelled.doc ≡ ok instructed
    env : List EnvVar
    tooling : apply_tools codec cluster policy agent agent.spec.tools instructed ≡ ok (m.doc, env)

  merge_layers-Layers : (m : Merged) → merge_layers codec cluster policy agent ≡ ok m → Layers m
  unfolding merge_layers
  merge_layers-Layers m h =
      let (extra, is_extra, h1) = bind-ok _ _ _ h in
      let (modelled, modelling, h2) = bind-ok _ _ _ h1 in
      let (instructed, instructing, h3) = bind-ok _ _ _ h2 in
      let ((tooled, env), tooling, h4) = bind-ok _ _ _ h3 in
      record {
        extra = extra;
        is_extra = is_extra;
        modelled = modelled;
        modelling = modelling;
        instructed = instructed;
        instructing = instructing;
        env = env;
        tooling = tooling ∙ ap (λ x. ok (x.doc, env)) (sym (ok-injective h4));
      }

  record Finish (m : Merged) (attached : List Value) (artifacts : List CapabilityArtifact)
      (r : Compiled) : Type 0 where
    doc : Doc
    writing :
        canonicalize codec (add_capabilities (map injected_entry policy.injected) m.doc) ≡ some doc
    splicing : splice_attached codec cluster policy attached doc ≡ ok r.doc
    platform : r.injected ≡ map (λ c. c.name) policy.injected
    same_artifacts : r.artifacts ≡ artifacts

  finish-Finish :
      (m : Merged) (attached : List Value) (artifacts : List CapabilityArtifact) (r : Compiled)
      → finish codec cluster policy agent m attached artifacts ≡ ok r
      → Finish m attached artifacts r
  unfolding finish
  finish-Finish m attached artifacts r h =
      let (doc, writing, h1) = bind-ok _ _ _ h in
      let (_, h2) = then-ok _ _ _ h1 in
      let (doc', splicing, h3) = bind-ok _ _ _ h2 in
      let (_, _, h4) = bind-ok _ _ _ h3 in
      let (_, _, h5) = bind-ok _ _ _ h4 in
      let result = ok-injective h5 in
      record {
        doc = doc;
        writing = found-ok _ _ _ writing;
        splicing = splicing ∙ ap (λ x. ok x.doc) (sym result);
        platform = ap (λ x. x.injected) result;
        same_artifacts = ap (λ x. x.artifacts) result;
      }

  -- `extra` is the document of the fragment's extra layer, `tools` are the tools that are referred to.
  pub record Ordered (r : Compiled) : Type 0 where
    pub extra : Doc
    pub is_extra : extra_doc codec (extra_of agent.spec.fragment) ≡ ok extra
    pub tools : List AgentTool
    pub are_read : AreRead codec cluster policy agent.namespace agent.spec.tools tools
    pub platform : r.injected ≡ map (λ c. c.name) policy.injected
    pub names : labels r.doc ≡ (
        ((labels extra ++ native_names agent.spec.fragment) ++ map tool_label tools)
        ++ (map (λ a. a.entry_name) r.artifacts ++ r.injected))

  abbrev own_names : Doc → List Text
  own_names extra = labels extra ++ native_names agent.spec.fragment

  names-instructed : (m : Merged) (s : Layers m) → labels s.instructed ≡ own_names s.extra
  unfolding ◌==◌
  names-instructed m s =
      labels-apply_instructions cluster agent s.modelled.doc s.instructed s.instructing
      ∙ labels-with_model codec cluster agent.namespace agent.spec.model_ref (layered s.extra)
          s.modelled s.modelling
      ∙ labels-fragment_doc codec agent.spec.fragment (named s.extra)
      ∙ ap (λ ls. ls ++ native_names agent.spec.fragment)
          (labels-put (codes "name") (text agent.name) s.extra refl)

  abbrev platform_names : List Text
  platform_names = map (λ c. c.name) policy.injected

  names-before_splice :
      (m : Merged) (doc : Doc) (before : List Text)
      → canonicalize codec (add_capabilities (map injected_entry policy.injected) m.doc) ≡ some doc
      → labels m.doc ≡ before
      → labels doc ≡ (before ++ platform_names)
  names-before_splice m doc before writing e =
      canonicalize-labels codec capabilities_key
        (add_capabilities (map injected_entry policy.injected) m.doc) doc writing
      ∙ labels-add_capabilities (map injected_entry policy.injected) m.doc
      ∙ (λ i. e i ++ labels-injected policy.injected i)

  -- Where Compile succeeds, the capability entries of the document have these names, in this order:
  -- those of the extra layer, the fragment's, one for each tool in the order of the references, one for
  -- each artifact of an attached Capability in their order, and last the platform's, in the order of
  -- the policy.
  pub compile-Ordered : (r : Compiled) → compile codec cluster policy agent ≡ ok r → Ordered r
  unfolding compile
  compile-Ordered r h =
      let (m, merging, h1) = bind-ok _ _ _ h in
      let ((attached, artifacts), resolving, h2) = bind-ok _ _ _ h1 in
      let s = merge_layers-Layers m merging in
      let f = finish-Finish m attached artifacts r h2 in
      let (tools, are_read, tool_names) =
        apply_tools-labels codec cluster policy agent agent.spec.tools s.instructed m.doc s.env
          s.tooling in
      let before = own_names s.extra ++ map tool_label tools in
      let merged = tool_names ∙ ap (λ ls. ls ++ map tool_label tools) (names-instructed m s) in
      record {
        extra = s.extra;
        is_extra = s.is_extra;
        tools = tools;
        are_read = are_read;
        platform = f.platform;
        names =
            splice_attached-labels codec cluster policy attached f.doc r.doc before platform_names
              f.splicing (names-before_splice m f.doc before f.writing merged)
              (length-injected policy.injected)
            ∙ ap (λ ls. before ++ (ls ++ platform_names))
                (resolve_capabilities-labels codec cluster.registry policy agent
                  (runner_version_of codec cluster policy agent) attached artifacts resolving)
            ∙ ap₂ (λ as' ls. before ++ (map (λ a. a.entry_name) as' ++ ls)) (sym f.same_artifacts)
                (sym f.platform);
      }
