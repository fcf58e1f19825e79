-- ===== src/Agent/Conflicts/Steps.antt =====
-- DetectConflicts on the pins of one capability.
use flokoa.Common.{
  ℕ, ◌≡◌, ◌↔◌, inl, inr, refl, sym, ap, subst, ◌∙◌, List, [], ◌∷◌, none, some, Text, Option-cases,
  append-eq-nil, Memᴰ, Memᴰ-cons,
}
use flokoa.Common.Dict.{lookup, put_new-origin}
use flokoa.Agent.Capability.{RunnerInfo, parse_pin}
use flokoa.Agent.Conflicts.{
  invalid_pin, Tables, Pinned, noted, pin_conflicts, check_pin, check_pins,
}
use flokoa.Agent.Conflicts.Compatible.{FitsAfter, AllFit}
use flokoa.Agent.Conflicts.Pin.{Clean, Fits, Known, pin_conflicts-nil, noted-Clean, noted-Known}

-- The table has the version of every pin that was met, and no other.
pub record Covers (seen : List Text) (t : Tables) : Type 0 where
  pub met : (p pkg v : Text) → Memᴰ p seen → parse_pin p ≡ some (pkg, v) → Known t.established pkg v
  pub only :
      (pkg : Text) (e : Pinned)
      → lookup pkg t.established ≡ some e
      → (p : Text) × Memᴰ p seen × (parse_pin p ≡ some (pkg, e.version))

-- The pins met, with those of a list after them.
abbrev pub onto : List Text → List Text → List Text
onto seen [] = seen
onto seen (p ∷ ps) = onto (p ∷ seen) ps

module _ (runner : RunnerInfo) (idx : ℕ) (name : Text) where
  check_pin-parsed :
      (t : Tables) (p pkg v : Text)
      → parse_pin p ≡ some (pkg, v)
      → check_pin runner idx name t p
        ≡ (pin_conflicts runner idx name t pkg v, noted t idx name pkg v)
  unfolding check_pin
  check_pin-parsed t p pkg v e = rw (e, check_pin) refl

  check_pin-invalid :
      (t : Tables) (p : Text)
      → parse_pin p ≡ none
      → (check_pin runner idx name t p).0 ≡ (invalid_pin name p ∷ [])
  unfolding check_pin
  check_pin-invalid t p e = rw (e, check_pin) refl

  Fits-FitsAfter :
      (seen : List Text) (t : Tables) (p pkg v : Text)
      → Covers seen t
      → parse_pin p ≡ some (pkg, v)
      → Fits runner t pkg v ↔ FitsAfter runner seen p
  Fits-FitsAfter seen t p pkg v c parsed = (
    λ f. record {
      pkg = pkg;
      version = v;
      parsed = parsed;
      base = f.base;
      before = λ q w m e. let (found, at, same) = c.met q pkg w m e in sym same ∙ f.prev found at;
    },
    λ f.
        let both = sym f.parsed ∙ parsed in
        let named : f.pkg ≡ pkg = cc in
        let versions : f.version ≡ v = cc in
        record {
          base = λ w at. f.base w (ap (λ x. lookup x runner.baseline) named ∙ at) ∙ versions;
          prev = λ e at.
              let (q, m, e') = c.only pkg e at in
              f.before q e.version m (e' ∙ ap (λ x. some (x, e.version)) (sym named)) ∙ versions;
        },
  )

  noted-Covers :
      (seen : List Text) (t : Tables) (p pkg v : Text)
      → Clean idx t
      → Covers seen t
      → parse_pin p ≡ some (pkg, v)
      → Fits runner t pkg v
      → Covers (p ∷ seen) (noted t idx name pkg v)
  noted-Covers seen t p pkg v clean c parsed f = record {
    met = λ q pkg' w m e. elim ((Memᴰ-cons q p seen).0 m) [
      | inl same ↦
          let both = sym parsed ∙ ap parse_pin (sym same) ∙ e in
          noted-Known runner idx name t pkg v clean f pkg' w (inr (cc, cc))
      | inr later ↦
          noted-Known runner idx name t pkg v clean f pkg' w (inl (c.met q pkg' w later e))
    ];
    only = λ pkg' e at. elim (put_new-origin pkg pkg' _ e t.established at) [
      | inl old ↦ let (q, m, e') = c.only pkg' e old in (q, (Memᴰ-cons q p seen).1 (inr m), e')
      | inr (fresh, named, same) ↦
          (p, (Memᴰ-cons p p seen).1 (inl refl), parsed ∙ (λ i. some (named i, (same i).version)))
    ];
  }

  check_pin-nil :
      (seen : List Text) (t : Tables) (p : Text)
      → Clean idx t
      → Covers seen t
      → ((check_pin runner idx name t p).0 ≡ []) ↔ FitsAfter runner seen p
  check_pin-nil seen t p clean c = elim (Option-cases (parse_pin p)) [
    | inl e ↦ (
      λ h. let bad = sym (check_pin-invalid t p e) ∙ h in cc,
      λ f. let bad = sym e ∙ f.parsed in cc,
    )
    | inr ((pkg, v), e) ↦
        let found = ap (λ x. x.0) (check_pin-parsed t p pkg v e) in
        let fits = Fits-FitsAfter seen t p pkg v c e in
        let quiet = pin_conflicts-nil runner idx name t pkg v clean in
        (λ h. fits.0 (quiet.0 (sym found ∙ h)), λ f. found ∙ quiet.1 (fits.1 f))
  ]

  check_pin-next :
      (seen : List Text) (t : Tables) (p : Text)
      → Clean idx t
      → Covers seen t
      → FitsAfter runner seen p
      → Clean idx (check_pin runner idx name t p).1
        × Covers (p ∷ seen) (check_pin runner idx name t p).1
  check_pin-next seen t p clean c f =
      let fits = (Fits-FitsAfter seen t p f.pkg f.version c f.parsed).1 f in
      let after = ap (λ x. x.1) (check_pin-parsed t p f.pkg f.version f.parsed) in
      (
        subst (Clean idx) (sym after) (noted-Clean runner idx name t f.pkg f.version clean fits),
        subst (Covers (p ∷ seen)) (sym after)
            (noted-Covers seen t p f.pkg f.version clean c f.parsed fits),
      )

  pub check_pins-nil :
      (seen : List Text) (t : Tables) (ps : List Text)
      → Clean idx t
      → Covers seen t
      → ((check_pins runner idx name t ps).0 ≡ []) ↔ AllFit runner seen ps
  unfolding check_pins
  check_pins-nil seen t [] clean c = (λ h. tt, λ h. refl)
  check_pins-nil seen t (p ∷ ps) clean c =
      let first = check_pin-nil seen t p clean c in
      let split = append-eq-nil (check_pin runner idx name t p).0 _ in
      let rest = λ (f : FitsAfter runner seen p).
        let (clean', c') = check_pin-next seen t p clean c f in
        check_pins-nil (p ∷ seen) (check_pin runner idx name t p).1 ps clean' c' in
      (
        λ h. let (h0, h1) = split.0 h in let f = first.0 h0 in (f, (rest f).0 h1),
        λ (f, fit). split.1 (first.1 f, (rest f).1 fit),
      )

  pub check_pins-next :
      (seen : List Text) (t : Tables) (ps : List Text)
      → Clean idx t
      → Covers seen t
      → AllFit runner seen ps
      → Clean idx (check_pins runner idx name t ps).1
        × Covers (onto seen ps) (check_pins runner idx name t ps).1
  unfolding check_pins
  check_pins-next seen t [] clean c fit = (clean, c)
  check_pins-next seen t (p ∷ ps) clean c (f, fit) =
      let (clean', c') = check_pin-next seen t p clean c f in
      check_pins-next (p ∷ seen) (check_pin runner idx name t p).1 ps clean' c' fit
