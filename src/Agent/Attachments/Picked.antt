-- ===== src/Agent/Attachments/Picked.antt =====
-- What one round of the loop of resolveCapabilities has checked of the Capability that it takes.
use flokoa.Common.{
  ◌≡◌, refl, sym, ap, subst, ◌∙◌, List, [], ◌∷◌, Option, none, some, Text, contains, Bool, true,
  false, not, ==_iff, if◌then◌else◌,
}
use flokoa.Common.Dict.{lookup}
use flokoa.Agent.Types.{CapabilityAttachment, Capability}
use flokoa.Agent.Capability.{RunnerInfo, Deps, check_requires, validate_entry_name, entry_name}
use flokoa.Agent.Value.{capability_entry, Value, Doc, Codec}
use flokoa.Agent.Tools.{default_ns}
use flokoa.Agent.Errors.{Result, ok, fails, permanent, entry_name_taken}
use flokoa.Agent.Errors.Chains.{
  bind-ok, then-ok, found-ok, require-ok, unless_error-ok, ok-injective,
}
use flokoa.Agent.Attachments.{
  CapabilityArtifact, Registry, Policy, Attached, attach, attach_all, with_attachment, free_name,
  key_text, requires_of, check_verified, check_config,
}

-- A Capability CR with its key, its entry name and the attachment's configuration.
pub record Picked : Type 0 where
  pub capability : Capability
  pub key : Text
  pub name : Text
  pub config : Doc

abbrev pub picked_entry : Picked → Value
picked_entry p = capability_entry p.name p.config

abbrev pub picked_artifact : Picked → CapabilityArtifact
picked_artifact p = record {
  name = p.capability.name;
  artifact = p.capability.artifact;
  entry_name = p.name;
}

abbrev pub picked_deps : Picked → Deps
picked_deps p = record { name = p.key; pins = p.capability.dependencies }

free_name-ok :
    (key name : Text) (acc : Attached)
    → free_name key name acc ≡ ok tt
    → lookup name acc.owners ≡ none
unfolding lookup
free_name-ok key name acc h = go (lookup name acc.owners) h
  where
    go :
        (o : Option Text)
        → Path
            (Result (Unit {0}))
            (elim o [ none ↦ ok tt | some owner ↦ fails (permanent (entry_name_taken key name)) ])
            (ok tt)
        → o ≡ none
    go none h = refl
    go (some owner) h = cc

not-true : (b : Bool) → not b ≡ true → b ≡ false
not-true true h = cc
not-true false h = refl

module _ (codec : Codec) (reg : Registry) (policy : Policy) (runner : RunnerInfo)
    (read : Text → Text → Option Capability) (namespace : Text) where
  -- The checks that the Capability of an attachment has passed.
  pub record Checked (acc : Attached) (att : CapabilityAttachment) (p : Picked) : Type 0 where
    pub own_namespace : default_ns att.ref.namespace namespace ≡ namespace
    pub fresh : contains p.key acc.seen ≡ false
    pub is_read : read namespace att.ref.name ≡ some p.capability
    pub verified : policy.require_verified ≡ true → check_verified p.key p.capability ≡ ok tt
    pub requires : check_requires reg.pep440 (requires_of p.capability) runner ≡ none
    pub config_checked : check_config reg p.key p.capability att.config ≡ ok tt
    pub serialized : p.name ≡ entry_name p.capability.entrypoint p.capability.serialization_name
    pub valid_name : validate_entry_name p.name ≡ none
    pub free : lookup p.name acc.owners ≡ none

  abbrev pub after : Attached → Picked → Attached
  after acc p = with_attachment acc p.capability p.key p.name p.config

  pub attach-Checked :
      (acc acc' : Attached) (att : CapabilityAttachment)
      → attach codec reg policy runner read namespace acc att ≡ ok acc'
      → (p : Picked) × Checked acc att p × (acc' ≡ after acc p)
  unfolding attach
  attach-Checked acc acc' att h =
      let (in_namespace, h1) = then-ok _ _ _ h in
      let (once, h2) = then-ok _ _ _ h1 in
      let (c, reading, h3) = bind-ok _ _ _ h2 in
      let (signed, h4) = then-ok _ _ _ h3 in
      let (required, h5) = then-ok _ _ _ h4 in
      let (fitting, h6) = then-ok _ _ _ h5 in
      let (config, _, h7) = bind-ok _ _ _ h6 in
      let (named, h8) = then-ok _ _ _ h7 in
      let (unclaimed, h9) = then-ok _ _ _ h8 in
      let own = (==_iff _ _).0 (require-ok _ _ in_namespace) in
      let key = key_text (default_ns att.ref.namespace namespace) att.ref.name in
      let name = entry_name c.entrypoint c.serialization_name in
      (
        record { capability = c; key = key; name = name; config = config },
        record {
          own_namespace = own;
          fresh = not-true _ (require-ok _ _ once);
          is_read = ap (λ n. read n att.ref.name) (sym own) ∙ found-ok _ _ _ reading;
          verified = λ e. subst (λ b. (if b then check_verified key c else ok tt) ≡ ok tt) e signed;
          requires = unless_error-ok _ _ required;
          config_checked = fitting;
          serialized = refl;
          valid_name = unless_error-ok _ _ named;
          free = free_name-ok key name acc unclaimed;
        },
        ok-injective h9,
      )

  -- The Capabilities of the attachments, each checked against those before it.
  abbrev pub AllChecked : Attached → List CapabilityAttachment → List Picked → Type 0
  AllChecked acc [] [] = Unit {0}
  AllChecked acc (att ∷ atts) (p ∷ ps) = Checked acc att p × AllChecked (after acc p) atts ps
  AllChecked acc _ _ = ⊥

  abbrev pub after_all : Attached → List Picked → Attached
  after_all acc [] = acc
  after_all acc (p ∷ ps) = after_all (after acc p) ps

  pub attach_all-AllChecked :
      (acc acc' : Attached) (atts : List CapabilityAttachment)
      → attach_all codec reg policy runner read namespace acc atts ≡ ok acc'
      → (ps : List Picked) × AllChecked acc atts ps × (acc' ≡ after_all acc ps)
  unfolding attach_all
  attach_all-AllChecked acc acc' [] h = ([], tt, ok-injective h)
  attach_all-AllChecked acc acc' (att ∷ atts) h =
      let (acc1, one, rest) = bind-ok _ _ _ h in
      let (p, checked, same) = attach-Checked acc acc1 att one in
      let go =
        subst (λ a. attach_all codec reg policy runner read namespace a atts ≡ ok acc') same rest in
      let (ps, all, same') = attach_all-AllChecked (after acc p) acc' atts go in
      (p ∷ ps, (checked, all), same')
