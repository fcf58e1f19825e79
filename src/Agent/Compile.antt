-- ===== src/Agent/Compile.antt =====
-- Compile of operator/internal/app/agent/compiler/compiler.go. The YAML text, which yaml.Marshal makes
-- of the document, is left out.
pub mod Order
pub mod Instructions
pub mod Steps
pub mod Names
pub mod Timeouts
use flokoa.Common.{
  ℕ, ℤ, ◌-◌, List, [], ◌∷◌, ◌++◌, map, length, take, drop, Option, none, some, Text, codes,
  is_empty, at_least, Bool, true, not, if◌then◌else◌,
}
use flokoa.Common.Dict.{lookup, put}
use flokoa.Hash.{sort_strings}
use flokoa.Agent.Types.{NamespacedRef, SecretKeySelector, EnvVar, secret, Agent, AgentSpecFragment}
use flokoa.Agent.Value.{
  capability_entry, Value, text, float, fraction, list, Doc, values, items, Codec, canonicalize,
}
use flokoa.Agent.Secrets.{secret_env_name}
use flokoa.Agent.Merge.{
  apply_fragment, capabilities_key, capability_list, add_capability, add_capabilities,
  fragment_sets_tool_timeout, tool_timeout_key,
}
use flokoa.Agent.Tools.{default_ns, compile_tool}
use flokoa.Agent.Attachments.{InjectedCapability, CapabilityArtifact, Policy, resolve_capabilities}
use flokoa.Agent.References.{WithModel, Cluster, with_model, apply_instructions}
use flokoa.Agent.Errors.{
  Result, ok, ◌>>=◌, ◌>>◌, found, require, permanent, dependency, invalid_spec, internal,
  extra_not_object, tool_not_found,
}

pub record Compiled : Type 0 where
  pub doc : Doc
  pub hash : Text
  pub runner_version : Text
  pub schema_digest : Text
  pub injected : List Text
  pub secret_env : List EnvVar
  pub provider_env : List EnvVar
  pub provider_secret_env : List EnvVar
  pub artifacts : List CapabilityArtifact

pub record Merged : Type 0 where
  pub doc : Doc
  pub model : WithModel
  pub tool_env : List EnvVar

-- Whether a tool's timeout is above the one in the document.
abbrev pub is_longer : Codec → ℤ → Option Value → Bool
is_longer codec t (some (float n)) = not (at_least n t)
is_longer codec t (some (fraction f)) = codec.exceeds t f
is_longer codec t _ = true

abbrev pub put_longer : Codec → ℤ → Doc → Doc
put_longer codec t doc =
    if is_longer codec t (lookup tool_timeout_key doc)
    then put tool_timeout_key (float t) doc
    else doc

-- `fixed` tells that the fragment sets the timeout.
unfoldable pub put_timeout : Codec → Bool → Option ℤ → Doc → Doc
unfolding lookup put
put_timeout codec fixed none doc = doc
put_timeout codec fixed (some t) doc = if fixed then doc else put_longer codec t doc

-- `[:insertAt]`, the entries, `[insertAt:]`
unfoldable pub splice : ℕ → List Value → List Value → List Value
splice injected new existing =
    let at = length existing - injected in take at existing ++ (new ++ drop at existing)

abbrev pub spliced : ℕ → List Value → Doc → Doc
spliced injected new doc =
    put capabilities_key (list (values (splice injected new (capability_list doc)))) doc

abbrev pub secret_at : List (Text × SecretKeySelector) → Text → List EnvVar
secret_at refs name = elim (lookup name refs) [
  | none ↦ []
  | some s ↦ record { name = secret_env_name name; source = secret s } ∷ []
]

unfoldable pub secrets_at : List (Text × SecretKeySelector) → List Text → List EnvVar
unfolding lookup secret_env_name
secrets_at refs [] = []
secrets_at refs (name ∷ names) = secret_at refs name ++ secrets_at refs names

abbrev pub agent_secret_env : List (Text × SecretKeySelector) → List EnvVar
agent_secret_env refs = secrets_at refs (sort_strings (map (λ x. x.0) refs))

abbrev pub injected_entry : InjectedCapability → Value
injected_entry c = capability_entry c.name c.config

abbrev pub fragment_doc : Codec → Option AgentSpecFragment → Doc → Doc
fragment_doc c none doc = doc
fragment_doc c (some frag) doc = apply_fragment c frag doc

abbrev pub extra_doc : Codec → Option Text → Result Doc
extra_doc c none = ok []
extra_doc c (some raw) = found (permanent extra_not_object) (c.yaml_object raw)

abbrev pub extra_of : Option AgentSpecFragment → Option Text
extra_of none = none
extra_of (some frag) = frag.extra

module _ (codec : Codec) (cluster : Cluster) (policy : Policy) where
  -- The loop of applyTools, with the secrets that the tools bring.
  unfoldable pub apply_tools : Agent → List NamespacedRef → Doc → Result (Doc × List EnvVar)
  unfolding compile_tool add_capability put_timeout fragment_sets_tool_timeout
  apply_tools agent [] doc = ok (doc, [])
  apply_tools agent (ref ∷ refs) doc = do
    let ns = default_ns ref.namespace agent.namespace
    tool ← found (dependency (tool_not_found ns ref.name)) (cluster.tools ns ref.name)
    (entry, env) ← compile_tool codec cluster.services tool
    let fixed = fragment_sets_tool_timeout codec agent.spec.fragment
    (doc', more) ←
        apply_tools agent refs
          (put_timeout codec fixed tool.timeout_seconds (add_capability entry doc))
    ok (doc', env ++ more)

  abbrev pub runner_version_of : Agent → Text
  runner_version_of agent =
      if is_empty agent.spec.runner_version
      then policy.default_runner_version
      else agent.spec.runner_version

  -- Step 10: nothing is done where no Capability is attached.
  abbrev pub splice_attached : List Value → Doc → Result Doc
  splice_attached [] doc = ok doc
  splice_attached (e ∷ es) doc =
      found internal (canonicalize codec (spliced (length policy.injected) (e ∷ es) doc))

  -- Steps 1 to 5.
  unfoldable pub merge_layers : Agent → Result Merged
  unfolding put apply_instructions apply_tools
  merge_layers agent = do
    let frag = agent.spec.fragment
    extra ← extra_doc codec (extra_of frag)
    let layered = fragment_doc codec frag (put (codes "name") (text agent.name) extra)
    modelled ← with_model codec cluster agent.namespace agent.spec.model_ref layered
    instructed ← apply_instructions cluster agent modelled.doc
    (tooled, env) ← apply_tools agent agent.spec.tools instructed
    ok (record { doc = tooled; model = modelled; tool_env = env })

  -- Steps 6 to 10, with the digest and the hash.
  unfoldable pub finish : Agent → Merged → List Value → List CapabilityArtifact → Result Compiled
  unfolding add_capabilities canonicalize secrets_at sort_strings
  finish agent merged attached artifacts = do
    let version = runner_version_of agent
    doc ←
        found internal
          (canonicalize codec (add_capabilities (map injected_entry policy.injected) merged.doc))
    require (invalid_spec version) (cluster.valid version doc)
    doc' ← splice_attached attached doc
    digest ← found internal (cluster.digest version)
    hash ← found internal (cluster.hash doc')
    ok (record {
      doc = doc';
      hash = hash;
      runner_version = version;
      schema_digest = digest;
      injected = map (λ c. c.name) policy.injected;
      secret_env = merged.tool_env ++ agent_secret_env agent.spec.secret_refs;
      provider_env = merged.model.provider_env;
      provider_secret_env = merged.model.provider_secret_env;
      artifacts = artifacts;
    })

  unfoldable pub compile : Agent → Result Compiled
  unfolding merge_layers resolve_capabilities finish
  compile agent = do
    merged ← merge_layers agent
    (attached, artifacts) ←
        resolve_capabilities codec cluster.registry policy agent (runner_version_of agent)
    finish agent merged attached artifacts
