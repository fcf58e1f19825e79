-- ===== src/Agent/Attachments.antt =====
-- resolveCapabilities of operator/internal/app/agent/compiler/compiler.go.
pub mod Picked
pub mod Resolved
use flokoa.Common.{
  List, [], ◌∷◌, ◌++◌, map, Option, none, some, Text, codes, ◌==◌, contains, Bool, not,
  if◌then◌else◌,
}
use flokoa.Common.Dict.{lookup, put, put_all}
use flokoa.Agent.Types.{
  Agent, AgentSpecFragment, CapabilityAttachment, Capability, condition_true, condition_false,
  condition_unknown,
}
use flokoa.Agent.Capability.{
  RunnerInfo, Requires, Deps, Pep440, check_requires, validate_entry_name, entry_name,
}
use flokoa.Agent.Conflicts.{Conflict, detect_conflicts}
use flokoa.Agent.Value.{capability_entry, Value, Doc, Codec}
use flokoa.Agent.Merge.{}
use flokoa.Agent.Tools.{default_ns}
use flokoa.Agent.Errors.{
  Result, ok, fails, ◌>>=◌, ◌>>◌, found, unless_error, require, permanent, dependency, invalid_spec,
  cross_namespace, attached_twice, requires_failed, strict_without_schema, config_rejected,
  config_not_object, bad_entry_name, entry_name_taken, dependency_conflicts, no_capability_reader,
  capability_not_found, verification_in_flight, not_verified,
}

pub record InjectedCapability : Type 0 where
  pub name : Text
  pub config : Doc

pub record CapabilityArtifact : Type 0 where
  pub name : Text
  pub artifact : Text
  pub entry_name : Text

-- The reader of Capability CRs, `none` where none is wired; it gives the CR with a namespace and a
-- name. `baselines` is RunnerBaseline, over the embedded files, and `config_fits` is ValidateConfig,
-- which is mostly the JSON Schema library.
pub record Registry : Type 0 where
  pub reader : Option (Text → Text → Option Capability)
  pub baselines : Text → Option RunnerInfo
  pub pep440 : Pep440
  pub config_fits : Text → Text → Bool

pub record Policy : Type 0 where
  pub default_runner_version : Text
  pub injected : List InjectedCapability
  pub require_verified : Bool

unfoldable pub check_verified : Text → Capability → Result (Unit {0})
check_verified key c = elim c.verified [
  | none ↦ fails (dependency (verification_in_flight key))
  | some condition_true ↦ ok tt
  | some condition_unknown ↦ fails (dependency (verification_in_flight key))
  | some condition_false ↦ fails (dependency (not_verified key))
]

abbrev pub requires_of : Capability → Requires
requires_of c = record {
  python = c.python;
  pydantic_ai = c.pydantic_ai;
  flokoa_runner = c.flokoa_runner;
}

abbrev pub config_text : Option Text → Text
config_text none = codes "{}"
config_text (some raw) = raw

abbrev pub check_schema : Registry → Text → Capability → Option Text → Result (Unit {0})
check_schema reg key c config = do
  schema ← found (permanent (strict_without_schema key)) c.config_schema
  require (permanent (config_rejected key)) (reg.config_fits schema (config_text config))

unfoldable pub check_config : Registry → Text → Capability → Option Text → Result (Unit {0})
check_config reg key c config = if c.permissive then ok tt else check_schema reg key c config

abbrev pub read_config : Codec → Text → Option Text → Result Doc
read_config codec name none = ok []
read_config codec name (some raw) =
    found (permanent (config_not_object name)) (codec.yaml_object raw)

-- NamespacedName.String
abbrev pub key_text : Text → Text → Text
key_text ns name = ns ++ (codes "/" ++ name)

-- What the loop has collected: `seen` has the keys of the attached CRs and `owners` has the entry names that are taken.
pub record Attached : Type 0 where
  pub owners : List (Text × Text)
  pub seen : List Text
  pub entries : List Value
  pub artifacts : List CapabilityArtifact
  pub deps : List Deps

abbrev pub with_attachment : Attached → Capability → Text → Text → Doc → Attached
with_attachment acc c key name config = record {
  owners = put name key acc.owners;
  seen = key ∷ acc.seen;
  entries = acc.entries ++ capability_entry name config ∷ [];
  artifacts =
      acc.artifacts ++ record { name = c.name; artifact = c.artifact; entry_name = name } ∷ [];
  deps = acc.deps ++ record { name = key; pins = c.dependencies } ∷ [];
}

abbrev pub free_name : Text → Text → Attached → Result (Unit {0})
free_name key name acc = elim (lookup name acc.owners) [
  | none ↦ ok tt
  | some owner ↦ fails (permanent (entry_name_taken key name))
]

module _ (codec : Codec) (reg : Registry) (policy : Policy) (runner : RunnerInfo)
    (read : Text → Text → Option Capability) (namespace : Text) where
  -- One round of the loop.
  unfoldable pub attach : Attached → CapabilityAttachment → Result Attached
  unfolding ◌==◌ contains check_verified check_requires check_config validate_entry_name entry_name
  attach acc att = do
    let ns = default_ns att.ref.namespace namespace
    let key = key_text ns att.ref.name
    require (permanent (cross_namespace key)) (ns == namespace)
    require (permanent (attached_twice key)) (not (contains key acc.seen))
    c ← found (dependency (capability_not_found ns att.ref.name)) (read ns att.ref.name)
    if policy.require_verified then check_verified key c else ok tt
    unless_error (λ e. permanent (requires_failed e))
        (check_requires reg.pep440 (requires_of c) runner)
    check_config reg key c att.config
    config ← read_config codec key att.config
    let name = entry_name c.entrypoint c.serialization_name
    unless_error (λ e. permanent (bad_entry_name key e)) (validate_entry_name name)
    free_name key name acc
    ok (with_attachment acc c key name config)

  unfoldable pub attach_all : Attached → List CapabilityAttachment → Result Attached
  unfolding attach
  attach_all acc [] = ok acc
  attach_all acc (att ∷ atts) = do acc' ← attach acc att; attach_all acc' atts

abbrev pub native_owners : Option AgentSpecFragment → List (Text × Text)
native_owners none = []
native_owners (some frag) = map (λ e. (e.name, codes "spec.spec.capabilities")) frag.capabilities

abbrev pub injected_owners : List InjectedCapability → List (Text × Text)
injected_owners injected = map (λ c. (c.name, codes "injected platform capability")) injected

-- A later assignment to a key wins, here the injected ones.
abbrev pub claimed : Option AgentSpecFragment → List InjectedCapability → Attached
claimed frag injected = record {
  owners = put_all (injected_owners injected) (put_all (native_owners frag) []);
  seen = [];
  entries = [];
  artifacts = [];
  deps = [];
}

abbrev pub no_conflicts : List Conflict → Result (Unit {0})
no_conflicts [] = ok tt
no_conflicts (m ∷ ms) = fails (permanent (dependency_conflicts (m ∷ ms)))

abbrev pub attach_listed :
    Codec
    → Registry
    → Policy
    → Agent
    → Text
    → List CapabilityAttachment
    → Result (List Value × List CapabilityArtifact)
attach_listed codec reg policy agent version atts = do
  read ← found (permanent no_capability_reader) reg.reader
  runner ← found (invalid_spec version) (reg.baselines version)
  acc ←
      attach_all codec reg policy runner read agent.namespace
        (claimed agent.spec.fragment policy.injected) atts
  no_conflicts (detect_conflicts acc.deps runner)
  ok (acc.entries, acc.artifacts)

unfoldable pub resolve_capabilities :
    Codec → Registry → Policy → Agent → Text → Result (List Value × List CapabilityArtifact)
unfolding attach_all detect_conflicts
resolve_capabilities codec reg policy agent version = elim agent.spec.capabilities [
  | [] ↦ ok ([], [])
  | att ∷ atts ↦ attach_listed codec reg policy agent version (att ∷ atts)
]
