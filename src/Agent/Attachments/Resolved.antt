-- ===== src/Agent/Attachments/Resolved.antt =====
-- What resolveCapabilities has made sure of where it succeeds.
use flokoa.Common.{
  ◌≡◌, refl, sym, ap, ap₂, subst, ◌∙◌, List, [], ◌∷◌, ◌++◌, map, append_assoc, append-nil, Option,
  none, some, Text, Memᴰ, Memᴰ-cons, Memᴰ-nil, Distinct, inl, inr,
}
use flokoa.Common.Dict.{lookup, put-absent}
use flokoa.Agent.Types.{Agent, CapabilityAttachment, Capability}
use flokoa.Agent.Capability.{RunnerInfo}
use flokoa.Agent.Conflicts.{Conflict, detect_conflicts}
use flokoa.Agent.Conflicts.Compatible.{Compatible}
use flokoa.Agent.Conflicts.Agree.{all_pins, detect_conflicts-nil_iff}
use flokoa.Agent.Value.{Value, Codec}
use flokoa.Agent.Value.Labels.{entry_label, entry_label-capability_entry}
use flokoa.Agent.Errors.{Result, ok}
use flokoa.Agent.Errors.Chains.{bind-ok, then-ok, found-ok, ok-injective}
use flokoa.Agent.Attachments.{
  CapabilityArtifact, Registry, Policy, Attached, claimed, no_conflicts, attach_listed,
  resolve_capabilities,
}
use flokoa.Agent.Attachments.Picked.{
  Picked, picked_entry, picked_artifact, picked_deps, AllChecked, after, after_all,
  attach_all-AllChecked,
}

no_conflicts-ok : (ms : List Conflict) → no_conflicts ms ≡ ok tt → ms ≡ []
no_conflicts-ok [] h = refl
no_conflicts-ok (m ∷ ms) h = cc

Memᴰ-name :
    (n : Text) (ps : List Picked)
    → Memᴰ n (map (λ p. p.name) ps)
    → (p : Picked) × Memᴰ p ps × (p.name ≡ n)
Memᴰ-name n [] m = absurd (Memᴰ-nil m)
Memᴰ-name n (p ∷ ps) m = elim ((Memᴰ-cons n p.name _).0 m) [
  | inl same ↦ (p, (Memᴰ-cons p p ps).1 (inl refl), sym same)
  | inr later ↦ let (q, m', same) = Memᴰ-name n ps later in (q, (Memᴰ-cons q p ps).1 (inr m'), same)
]

picked-labels :
    (ps : List Picked)
    → map entry_label (map picked_entry ps) ≡ map (λ a. a.entry_name) (map picked_artifact ps)
picked-labels [] = refl
picked-labels (p ∷ ps) =
    ap₂ (λ n ns. n ∷ ns) (entry_label-capability_entry p.name p.config) (picked-labels ps)

module _ (codec : Codec) (reg : Registry) (policy : Policy) (runner : RunnerInfo)
    (read : Text → Text → Option Capability) (namespace : Text) where
  unclaimed :
      (acc : Attached) (atts : List CapabilityAttachment) (ps : List Picked)
      → AllChecked codec reg policy runner read namespace acc atts ps
      → (p : Picked) → Memᴰ p ps
      → lookup p.name acc.owners ≡ none
  unclaimed acc [] [] all p m = absurd (Memᴰ-nil m)
  unclaimed acc [] (q ∷ qs) all p m = absurd all
  unclaimed acc (att ∷ atts) [] all p m = absurd all
  unclaimed acc (att ∷ atts) (q ∷ qs) (checked, all) p m = elim ((Memᴰ-cons p q qs).0 m) [
    | inl same ↦ ap (λ x. lookup x.name acc.owners) same ∙ checked.free
    | inr later ↦
        (put-absent q.name p.name q.key acc.owners
          (unclaimed (after codec reg policy runner read namespace acc q) atts qs all p later)).1
  ]

  distinct_names :
      (acc : Attached) (atts : List CapabilityAttachment) (ps : List Picked)
      → AllChecked codec reg policy runner read namespace acc atts ps
      → Distinct (map (λ p. p.name) ps)
  distinct_names acc [] [] all = tt
  distinct_names acc [] (q ∷ qs) all = absurd all
  distinct_names acc (att ∷ atts) [] all = absurd all
  distinct_names acc (att ∷ atts) (q ∷ qs) (checked, all) =
      let next = after codec reg policy runner read namespace acc q in
      (
        λ m.
            let (p, m', same) = Memᴰ-name q.name qs m in
            (put-absent q.name p.name q.key acc.owners (unclaimed next atts qs all p m')).0
              (sym same),
        distinct_names next atts qs all,
      )

  after_all-lists :
      (acc : Attached) (ps : List Picked)
      → (let last = after_all codec reg policy runner read namespace acc ps in
          (last.entries ≡ (acc.entries ++ map picked_entry ps))
          × (last.artifacts ≡ (acc.artifacts ++ map picked_artifact ps))
          × (last.deps ≡ (acc.deps ++ map picked_deps ps)))
  after_all-lists acc [] = (sym (append-nil _), sym (append-nil _), sym (append-nil _))
  after_all-lists acc (p ∷ ps) =
      let (a, b, c) = after_all-lists (after codec reg policy runner read namespace acc p) ps in
      (
        a ∙ append_assoc acc.entries (picked_entry p ∷ []) (map picked_entry ps),
        b ∙ append_assoc acc.artifacts (picked_artifact p ∷ []) (map picked_artifact ps),
        c ∙ append_assoc acc.deps (picked_deps p ∷ []) (map picked_deps ps),
      )

module _ (codec : Codec) (reg : Registry) (policy : Policy) (agent : Agent) (version : Text) where
  -- The Capabilities of an agent's attachments, with what they compile to.
  pub record Resolved (entries : List Value) (artifacts : List CapabilityArtifact) : Type 0 where
    pub reader : Text → Text → Option Capability
    pub runner : RunnerInfo
    pub is_reader : reg.reader ≡ some reader
    pub is_baseline : reg.baselines version ≡ some runner
    pub picked : List Picked
    pub checked :
        AllChecked codec reg policy runner reader agent.namespace
          (claimed agent.spec.fragment policy.injected)
          agent.spec.capabilities
          picked
    pub as_entries : entries ≡ map picked_entry picked
    pub as_artifacts : artifacts ≡ map picked_artifact picked
    pub distinct : Distinct (map (λ p. p.name) picked)
    pub unclaimed :
        (p : Picked)
        → Memᴰ p picked
        → lookup p.name (claimed agent.spec.fragment policy.injected).owners ≡ none
    pub compatible : Compatible runner (all_pins (map picked_deps picked))

  attach_listed-Resolved :
      (entries : List Value) (artifacts : List CapabilityArtifact)
      → attach_listed codec reg policy agent version agent.spec.capabilities
        ≡ ok (entries, artifacts)
      → Resolved entries artifacts
  attach_listed-Resolved entries artifacts h =
      let start = claimed agent.spec.fragment policy.injected in
      let (read, reading, h1) = bind-ok _ _ _ h in
      let (runner, based, h2) = bind-ok _ _ _ h1 in
      let (acc, attaching, h3) = bind-ok _ _ _ h2 in
      let (quiet, h4) = then-ok _ _ _ h3 in
      let (picked, all, same) =
        attach_all-AllChecked codec reg policy runner read agent.namespace start acc
          agent.spec.capabilities attaching in
      let (in_entries, in_artifacts, in_deps) =
        after_all-lists codec reg policy runner read agent.namespace start picked in
      let clean = no_conflicts-ok (detect_conflicts acc.deps runner) quiet in
      let deps : acc.deps ≡ map picked_deps picked = ap (λ a. a.deps) same ∙ in_deps in
      record {
        reader = read;
        runner = runner;
        is_reader = found-ok _ _ _ reading;
        is_baseline = found-ok _ _ _ based;
        picked = picked;
        checked = all;
        as_entries = ap (λ r. r.0) (ok-injective h4) ∙ ap (λ a. a.entries) same ∙ in_entries;
        as_artifacts = ap (λ r. r.1) (ok-injective h4) ∙ ap (λ a. a.artifacts) same ∙ in_artifacts;
        distinct =
            distinct_names codec reg policy runner read agent.namespace start
              agent.spec.capabilities picked all;
        unclaimed =
            unclaimed codec reg policy runner read agent.namespace start agent.spec.capabilities
              picked all;
        compatible =
            subst (λ d. Compatible runner (all_pins d)) deps
              ((detect_conflicts-nil_iff runner acc.deps).0 clean);
      }

  -- Where resolveCapabilities succeeds on an agent with attachments, it gives one entry and one
  -- artifact for each, in order, from the Capability of that name in the agent's own namespace, which
  -- has passed every check. The entry names differ from each other and from those of the fragment and
  -- of the platform, and the pins of all attached Capabilities agree with each other and with the
  -- baseline of the runner.
  pub resolve_capabilities-Resolved :
      (att : CapabilityAttachment) (atts : List CapabilityAttachment) (entries : List Value)
      (artifacts : List CapabilityArtifact)
      → agent.spec.capabilities ≡ (att ∷ atts)
      → resolve_capabilities codec reg policy agent version ≡ ok (entries, artifacts)
      → Resolved entries artifacts
  unfolding resolve_capabilities
  resolve_capabilities-Resolved att atts entries artifacts some_attached h =
      attach_listed-Resolved entries artifacts (listed agent.spec.capabilities some_attached h)
    where
      listed :
          (l : List CapabilityAttachment)
          → l ≡ (att ∷ atts)
          → Path
              (Result (List Value × List CapabilityArtifact))
              (elim l [
                | [] ↦ ok ([], [])
                | a ∷ l' ↦ attach_listed codec reg policy agent version (a ∷ l')
              ])
              (ok (entries, artifacts))
          → attach_listed codec reg policy agent version l ≡ ok (entries, artifacts)
      listed [] e h = cc
      listed (a ∷ l') e h = h

  -- The entries are named like the artifacts.
  pub resolve_capabilities-labels :
      (entries : List Value) (artifacts : List CapabilityArtifact)
      → resolve_capabilities codec reg policy agent version ≡ ok (entries, artifacts)
      → map entry_label entries ≡ map (λ a. a.entry_name) artifacts
  unfolding resolve_capabilities
  resolve_capabilities-labels entries artifacts h = go agent.spec.capabilities refl
    where
      go :
          (l : List CapabilityAttachment)
          → agent.spec.capabilities ≡ l
          → map entry_label entries ≡ map (λ a. a.entry_name) artifacts
      go [] e =
          let nothing : resolve_capabilities codec reg policy agent version ≡ ok ([], []) =
            rw (e, resolve_capabilities) refl in
          let both = ok-injective (sym nothing ∙ h) in
          (λ i. map entry_label (both i).0) ∙ ap (λ r. map (λ a. a.entry_name) r.1) (sym both)
      go (att ∷ atts) e =
          let r = resolve_capabilities-Resolved att atts entries artifacts e h in
          ap (map entry_label) r.as_entries
          ∙ picked-labels r.picked
          ∙ ap (map (λ a. a.entry_name)) (sym r.as_artifacts)
