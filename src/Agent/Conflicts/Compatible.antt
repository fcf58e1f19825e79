-- ===== src/Agent/Conflicts/Compatible.antt =====
-- What the pins of the attached capabilities are to satisfy, independently of the loop.
use flokoa.Common.{
  ◌≡◌, ◌↔◌, ◌⊎◌, inl, inr, refl, sym, ap, subst, ◌∙◌, List, [], ◌∷◌, some, Text, Memᴰ, Memᴰ-cons,
  Memᴰ-nil,
}
use flokoa.Common.Dict.{lookup}
use flokoa.Agent.Capability.{RunnerInfo, parse_pin}

module _ (runner : RunnerInfo) where
  -- Every pin is one, agrees with the baseline of the runner, and no two of them name two versions of
  -- a package.
  pub record Compatible (pins : List Text) : Type 0 where
    pub valid : (p : Text) → Memᴰ p pins → (n : Text × Text) × (parse_pin p ≡ some n)
    pub as_baseline :
        (p pkg v w : Text)
        → Memᴰ p pins
        → parse_pin p ≡ some (pkg, v)
        → lookup pkg runner.baseline ≡ some w
        → w ≡ v
    pub agree :
        (p q pkg v w : Text)
        → Memᴰ p pins
        → Memᴰ q pins
        → parse_pin p ≡ some (pkg, v)
        → parse_pin q ≡ some (pkg, w)
        → v ≡ w

  -- A pin next to those before it.
  pub record FitsAfter (seen : List Text) (p : Text) : Type 0 where
    pub pkg : Text
    pub version : Text
    pub parsed : parse_pin p ≡ some (pkg, version)
    pub base : (w : Text) → lookup pkg runner.baseline ≡ some w → w ≡ version
    pub before : (q w : Text) → Memᴰ q seen → parse_pin q ≡ some (pkg, w) → w ≡ version

  abbrev pub AllFit : List Text → List Text → Type 0
  AllFit seen [] = Unit {0}
  AllFit seen (p ∷ ps) = FitsAfter seen p × AllFit (p ∷ seen) ps

  parsed-same :
      (seen : List Text) (p : Text) (f : FitsAfter seen p) (q pkg w : Text)
      → q ≡ p
      → parse_pin q ≡ some (pkg, w)
      → (f.pkg ≡ pkg) × (f.version ≡ w)
  parsed-same seen p f q pkg w same e =
      let both = sym f.parsed ∙ ap parse_pin (sym same) ∙ e in (cc, cc)

  Compatible-cons :
      (seen : List Text) (p : Text) → Compatible seen → FitsAfter seen p → Compatible (p ∷ seen)
  Compatible-cons seen p c f = record {
    valid = λ q m. elim ((Memᴰ-cons q p seen).0 m) [
      | inl same ↦ ((f.pkg, f.version), ap parse_pin same ∙ f.parsed)
      | inr later ↦ c.valid q later
    ];
    as_baseline = λ q pkg v w m e at. elim ((Memᴰ-cons q p seen).0 m) [
      | inl same ↦
          let (named, versions) = parsed-same seen p f q pkg v same e in
          f.base w (ap (λ x. lookup x runner.baseline) named ∙ at) ∙ versions
      | inr later ↦ c.as_baseline q pkg v w later e at
    ];
    agree = λ q r pkg v w m m' e e'. elim ((Memᴰ-cons q p seen).0 m) [
      | inl same ↦
          let (named, versions) = parsed-same seen p f q pkg v same e in
          elim ((Memᴰ-cons r p seen).0 m') [
            | inl same' ↦
                let (_, versions') = parsed-same seen p f r pkg w same' e' in
                sym versions ∙ versions'
            | inr later' ↦
                sym versions ∙ sym (f.before r w later' (e' ∙ ap (λ x. some (x, w)) (sym named)))
          ]
      | inr later ↦ elim ((Memᴰ-cons r p seen).0 m') [
        | inl same' ↦
            let (named, versions) = parsed-same seen p f r pkg w same' e' in
            f.before q v later (e ∙ ap (λ x. some (x, v)) (sym named)) ∙ versions
        | inr later' ↦ c.agree q r pkg v w later later' e e'
      ]
    ];
  }

  Compatible-subset :
      (pins all : List Text)
      → ((p : Text) → Memᴰ p pins → Memᴰ p all)
      → Compatible all
      → Compatible pins
  Compatible-subset pins all sub c = record {
    valid = λ p m. c.valid p (sub p m);
    as_baseline = λ p pkg v w m. c.as_baseline p pkg v w (sub p m);
    agree = λ p q pkg v w m m'. c.agree p q pkg v w (sub p m) (sub q m');
  }

  FitsAfter-of :
      (seen : List Text) (p : Text) (all : List Text)
      → Compatible all
      → Memᴰ p all
      → ((q : Text) → Memᴰ q seen → Memᴰ q all)
      → FitsAfter seen p
  FitsAfter-of seen p all c m sub =
      let ((pkg, v), parsed) = c.valid p m in
      record {
        pkg = pkg;
        version = v;
        parsed = parsed;
        base = λ w at. c.as_baseline p pkg v w m parsed at;
        before = λ q w m' e. c.agree q p pkg w v (sub q m') m e parsed;
      }

  AllFit-of :
      (seen ps all : List Text)
      → Compatible all
      → ((q : Text) → Memᴰ q seen → Memᴰ q all)
      → ((q : Text) → Memᴰ q ps → Memᴰ q all)
      → AllFit seen ps
  AllFit-of seen [] all c sub sub' = tt
  AllFit-of seen (p ∷ ps) all c sub sub' =
      let here = sub' p ((Memᴰ-cons p p ps).1 (inl refl)) in
      (
        FitsAfter-of seen p all c here sub,
        AllFit-of (p ∷ seen) ps all c
            (λ q m. elim ((Memᴰ-cons q p seen).0 m) [
              | inl same ↦ subst (λ x. Memᴰ x all) (sym same) here
              | inr later ↦ sub q later
            ])
            (λ q m. sub' q ((Memᴰ-cons q p ps).1 (inr m))),
      )

  Compatible-of :
      (seen ps : List Text)
      → Compatible seen
      → AllFit seen ps
      → (all : List Text) × Compatible all × ((q : Text) → (Memᴰ q ps ⊎ Memᴰ q seen) → Memᴰ q all)
  Compatible-of seen [] c fit =
      (seen, c, λ q m. elim m [ inl none_left ↦ absurd (Memᴰ-nil none_left) | inr m' ↦ m' ])
  Compatible-of seen (p ∷ ps) c (f, fit) =
      let (all, c', sub) = Compatible-of (p ∷ seen) ps (Compatible-cons seen p c f) fit in
      (
        all,
        c',
        λ q m. elim m [
          | inr m' ↦ sub q (inr ((Memᴰ-cons q p seen).1 (inr m')))
          | inl m' ↦ elim ((Memᴰ-cons q p ps).0 m') [
            | inl same ↦ sub q (inr ((Memᴰ-cons q p seen).1 (inl same)))
            | inr m'' ↦ sub q (inl m'')
          ]
        ],
      )

  Compatible-nil : Compatible []
  Compatible-nil = record {
    valid = λ p m. absurd (Memᴰ-nil m);
    as_baseline = λ p pkg v w m e at. absurd (Memᴰ-nil m);
    agree = λ p q pkg v w m m' e e'. absurd (Memᴰ-nil m);
  }

  pub AllFit-Compatible : (ps : List Text) → AllFit [] ps ↔ Compatible ps
  AllFit-Compatible ps = (
    λ fit.
        let (all, c, sub) = Compatible-of [] ps Compatible-nil fit in
        Compatible-subset ps all (λ q m. sub q (inl m)) c,
    λ c. AllFit-of [] ps ps c (λ q m. absurd (Memᴰ-nil m)) (λ q m. m),
  )
