-- ===== src/Tests/Agent.antt =====
-- The compiler of agents on one agent.
use flokoa.Common.{◌≡◌, refl, pos, [], ◌∷◌, List, some, Text, codes, ◌==◌, Memᴰ, Memᴰ-cons, inl}
use flokoa.Common.Dict.{lookup, put_all}
use flokoa.Agent.Capability.{Deps, parse_pin}
use flokoa.Agent.Conflicts.{detect_conflicts}
use flokoa.Agent.Conflicts.Compatible.{Compatible}
use flokoa.Agent.Conflicts.Agree.{all_pins, detect_conflicts-nil_iff}
use flokoa.Agent.Types.{AgentTool, EnvVar, secret}
use flokoa.Agent.Value.{Doc, Value, text, decimal, and_then, canonical, capability_entry}
use flokoa.Agent.Errors.{◌>>=◌, ◌>>◌, found, require, unless_error}
use flokoa.Agent.Merge.{tool_timeout_key, apply_fragment}
use flokoa.Agent.Tools.{compile_tool}
use flokoa.Agent.Tools.Shared.{compile_tool-shared_env}
use flokoa.Agent.Attachments.{CapabilityArtifact, resolve_capabilities}
use flokoa.Agent.Attachments.Resolved.{Resolved, resolve_capabilities-Resolved}
use flokoa.Agent.References.{Cluster, WithModel, apply_model_ref}
use flokoa.Agent.Settings.{settings_of}
use flokoa.Agent.Settings.Precedence.{apply_model_ref-precedence}
use flokoa.Agent.Compile.Steps.{AreRead}
use flokoa.Agent.Compile.Timeouts.{IsLongest, apply_tools-IsLongest}
use flokoa.Agent.Compile.{apply_tools, Compiled, compile, splice}
use flokoa.Agent.Compile.Names.{Ordered, compile-Ordered}
use flokoa.Tests.AgentSample.{
  runner, no_text, memory, tool, h, k, tool_ab, tool_a, codec, registry, cluster, policy, ref,
  attachment, agent, value_or, model, with_models, cool_fragment,
}

abbrev deps : List Deps
deps = record { name = codes "n/memory"; pins = memory.dependencies } ∷ []

detect_conflicts-nil_iff_example : Compatible runner (all_pins deps)
unfolding detect_conflicts parse_pin
detect_conflicts-nil_iff_example = (detect_conflicts-nil_iff runner deps).0 refl

abbrev nothing : List Value × List CapabilityArtifact
nothing = ([], [])

abbrev resolved : List Value × List CapabilityArtifact
resolved = value_or nothing (resolve_capabilities codec registry policy agent (codes "1"))

resolve_capabilities-Resolved_example :
    Resolved codec registry policy agent (codes "1") resolved.0 resolved.1
unfolding resolve_capabilities ◌>>=◌ found ◌>>◌ require unless_error put_all parse_pin
resolve_capabilities-Resolved_example =
    resolve_capabilities-Resolved codec registry policy agent (codes "1") attachment [] resolved.0
      resolved.1 refl refl

abbrev no_entry : Value × List EnvVar
no_entry = (text no_text, [])

abbrev entry_ab : Value × List EnvVar
entry_ab = value_or no_entry (compile_tool codec cluster.services tool_ab)

abbrev entry_a : Value × List EnvVar
entry_a = value_or no_entry (compile_tool codec cluster.services tool_a)

compile_tool-shared_env_example :
    (name : Text) × Memᴰ (record { name = name; source = secret h.secret_ref }) entry_ab.1
    × Memᴰ (record { name = name; source = secret k.secret_ref }) entry_a.1
unfolding compile_tool ◌>>=◌
compile_tool-shared_env_example =
    compile_tool-shared_env codec cluster.services tool_ab tool_a h k (codes "a") (codes "b")
      entry_ab.0 entry_a.0 entry_ab.1 entry_a.1 refl refl refl refl
      ((Memᴰ-cons h h []).1 (inl refl)) ((Memᴰ-cons k k []).1 (inl refl)) refl refl

abbrev empty : Compiled
empty = record {
  doc = [];
  hash = no_text;
  runner_version = no_text;
  schema_digest = no_text;
  injected = [];
  secret_env = [];
  provider_env = [];
  provider_secret_env = [];
  artifacts = [];
}

abbrev result : Compiled
result = value_or empty (compile codec cluster policy agent)

compile-Ordered_example : Ordered codec cluster policy agent result
unfolding compile ◌>>=◌ found ◌>>◌ require unless_error parse_pin and_then canonical apply_fragment
    capability_entry splice
compile-Ordered_example = compile-Ordered codec cluster policy agent result refl

abbrev unmodelled : WithModel
unmodelled = record { doc = []; provider_env = []; provider_secret_env = [] }

abbrev modelled : WithModel
modelled = value_or unmodelled (
    apply_model_ref codec with_models (codes "n") (ref (codes "m"))
      (apply_fragment codec cool_fragment []))

apply_model_ref-precedence_example :
    lookup (codes "temperature") (settings_of modelled.doc) ≡ some (decimal (codes "0.1"))
unfolding apply_model_ref ◌>>=◌ found ◌>>◌ require ◌==◌
apply_model_ref-precedence_example =
    apply_model_ref-precedence codec with_models (codes "n") (ref (codes "m")) cool_fragment []
      model modelled (codes "temperature") refl refl

abbrev slow_tool : AgentTool
slow_tool = record (tool (codes "a") []) { timeout_seconds = some (pos 30) }

abbrev with_slow_tool : Cluster
with_slow_tool = record cluster { tools = λ ns n. some slow_tool }

abbrev no_tools : Doc × List EnvVar
no_tools = ([], [])

abbrev tooled : Doc × List EnvVar
tooled = value_or no_tools (apply_tools codec with_slow_tool policy agent agent.spec.tools [])

apply_tools-IsLongest_example :
    (ts : List AgentTool) × AreRead codec with_slow_tool policy agent.namespace agent.spec.tools ts
    × IsLongest (lookup tool_timeout_key tooled.0) ts
unfolding apply_tools ◌>>=◌ found
apply_tools-IsLongest_example =
    apply_tools-IsLongest codec with_slow_tool policy agent [] tooled.0 tooled.1 refl refl refl
