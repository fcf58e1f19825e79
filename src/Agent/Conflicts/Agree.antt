-- ===== src/Agent/Conflicts/Agree.antt =====
-- When DetectConflicts finds nothing.
use flokoa.Common.{
  ℕ, suc, ◌≡◌, ◌↔◌, refl, List, [], ◌∷◌, ◌++◌, Text, append-eq-nil, Memᴰ-nil, arith,
}
use flokoa.Common.Dict.{lookup}
use flokoa.Agent.Capability.{RunnerInfo, Deps}
use flokoa.Agent.Conflicts.{Tables, check_pins, check_caps, detect_conflicts, without_local}
use flokoa.Agent.Conflicts.Compatible.{AllFit, Compatible, AllFit-Compatible}
use flokoa.Agent.Conflicts.Steps.{Covers, onto, check_pins-nil, check_pins-next}
use flokoa.Agent.Conflicts.Pin.{Clean}

-- The pins of all capabilities, in order.
abbrev pub all_pins : List Deps → List Text
all_pins [] = []
all_pins (c ∷ caps) = c.pins ++ all_pins caps

module _ (runner : RunnerInfo) where
  AllFit-append :
      (seen ps qs : List Text)
      → AllFit runner seen (ps ++ qs) ↔ (AllFit runner seen ps × AllFit runner (onto seen ps) qs)
  AllFit-append seen [] qs = (λ h. (tt, h), λ (_, h). h)
  AllFit-append seen (p ∷ ps) qs =
      let rest = AllFit-append (p ∷ seen) ps qs in
      (λ (f, h). let (a, b) = rest.0 h in ((f, a), b), λ ((f, a), b). (f, rest.1 (a, b)))

  -- What the next capability starts with.
  next_capability : (idx : ℕ) (t : Tables) → Clean idx t → Clean (suc idx) (without_local t)
  unfolding lookup
  next_capability idx t clean = record {
    unreported = clean.unreported;
    local_known = λ pkg w at. cc;
    own_local =
        λ pkg e at own. let before = clean.earlier pkg e at in absurd (omega (arith, own, before));
    earlier = λ pkg e at. let before = clean.earlier pkg e at in omega (arith, before);
  }

  check_caps-nil :
      (idx : ℕ) (seen : List Text) (t : Tables) (caps : List Deps)
      → Clean idx (without_local t)
      → Covers seen t
      → (check_caps runner idx t caps ≡ []) ↔ AllFit runner seen (all_pins caps)
  unfolding check_caps
  check_caps-nil idx seen t [] clean c = (λ h. tt, λ h. refl)
  check_caps-nil idx seen t (d ∷ caps) clean c =
      let start = without_local t in
      let c0 : Covers seen start = record { met = c.met; only = c.only } in
      let first = check_pins-nil runner idx d.name seen start d.pins clean c0 in
      let split = append-eq-nil (check_pins runner idx d.name start d.pins).0 _ in
      let parts = AllFit-append seen d.pins (all_pins caps) in
      let rest = λ (f : AllFit runner seen d.pins).
        let (clean', c') = check_pins-next runner idx d.name seen start d.pins clean c0 f in
        check_caps-nil (suc idx) (onto seen d.pins) (check_pins runner idx d.name start d.pins).1
          caps (next_capability idx (check_pins runner idx d.name start d.pins).1 clean') c' in
      (
        λ h. let (h0, h1) = split.0 h in let f = first.0 h0 in parts.1 (f, (rest f).0 h1),
        λ h. let (f, later) = parts.0 h in split.1 (first.1 f, (rest f).1 later),
      )

  -- DetectConflicts reports nothing exactly where every pin of every capability is one, each agrees
  -- with the version that the baseline of the runner has of its package, and no two of them, of one
  -- capability or of two, name different versions of a package.
  pub detect_conflicts-nil_iff :
      (caps : List Deps) → (detect_conflicts caps runner ≡ []) ↔ Compatible runner (all_pins caps)
  unfolding detect_conflicts lookup
  detect_conflicts-nil_iff caps =
      let quiet =
        check_caps-nil 0 [] (record { local = []; established = []; reported = [] }) caps
          (record {
            unreported = refl;
            local_known = λ pkg w at. cc;
            own_local = λ pkg e at own. cc;
            earlier = λ pkg e at. cc;
          })
          (record { met = λ p pkg v m e. absurd (Memᴰ-nil m); only = λ pkg e at. cc }) in
      let fit = AllFit-Compatible runner (all_pins caps) in
      (λ h. fit.0 (quiet.0 h), λ h. quiet.1 (fit.1 h))
