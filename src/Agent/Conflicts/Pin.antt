-- ===== src/Agent/Conflicts/Pin.antt =====
-- One round of the loop of DetectConflicts, on tables that no conflict has touched.
use flokoa.Common.{
  ℕ, ◌≤◌, ◌≡◌, ◌↔◌, ◌⊎◌, inl, inr, refl, sym, ◌∙◌, ap, List, [], ◌++◌, some, Text, ◌==◌, ==_iff,
  Bool-cases, Option-cases, append-eq-nil, same_code, arith,
}
use flokoa.Common.Dict.{lookup, put_new, put_new-kept, put_new-absent, put_new-origin}
use flokoa.Agent.Capability.{RunnerInfo}
use flokoa.Agent.Conflicts.{
  Tables, Pinned, pin_conflicts, noted, note_reported, baseline_conflict, local_conflict,
  cross_conflict,
}

abbrev pub Known : List (Text × Pinned) → Text → Text → Type 0
Known es pkg v = (e : Pinned) × (lookup pkg es ≡ some e) × (e.version ≡ v)

-- No pair is reported, the versions of the capability at hand are in the other table too, and what
-- that capability has established is among its own.
pub record Clean (idx : ℕ) (t : Tables) : Type 0 where
  pub unreported : t.reported ≡ []
  pub local_known : (pkg w : Text) → lookup pkg t.local ≡ some w → Known t.established pkg w
  pub own_local :
      (pkg : Text) (e : Pinned)
      → lookup pkg t.established ≡ some e
      → e.idx ≡ idx
      → lookup pkg t.local ≡ some e.version
  pub earlier : (pkg : Text) (e : Pinned) → lookup pkg t.established ≡ some e → e.idx ≤ idx

pub record Fits (runner : RunnerInfo) (t : Tables) (pkg v : Text) : Type 0 where
  pub base : (w : Text) → lookup pkg runner.baseline ≡ some w → w ≡ v
  pub prev : (e : Pinned) → lookup pkg t.established ≡ some e → e.version ≡ v

baseline_conflict-nil :
    (runner : RunnerInfo) (name pkg v : Text)
    → (baseline_conflict runner name pkg v ≡ [])
      ↔ ((w : Text) → lookup pkg runner.baseline ≡ some w → w ≡ v)
baseline_conflict-nil runner name pkg v = elim (Option-cases (lookup pkg runner.baseline)) [
  | inl e ↦ rw (e, baseline_conflict) (λ h w e'. cc, λ h. refl)
  | inr (b, e) ↦ elim (Bool-cases (b == v)) [
    | inl s ↦ rw (e, s, baseline_conflict) (λ h w e'. let same = (==_iff b v).0 s in cc, λ h. refl)
    | inr s ↦
        rw (e, s, baseline_conflict) (λ h. cc, λ h. let same = (==_iff b v).1 (h b refl) in cc)
  ]
]

local_conflict-nil :
    (local : List (Text × Text)) (name pkg v : Text)
    → (local_conflict local name pkg v ≡ []) ↔ ((w : Text) → lookup pkg local ≡ some w → w ≡ v)
local_conflict-nil local name pkg v = elim (Option-cases (lookup pkg local)) [
  | inl e ↦ rw (e, local_conflict) (λ h w e'. cc, λ h. refl)
  | inr (b, e) ↦ elim (Bool-cases (b == v)) [
    | inl s ↦ rw (e, s, local_conflict) (λ h w e'. let same = (==_iff b v).0 s in cc, λ h. refl)
    | inr s ↦ rw (e, s, local_conflict) (λ h. cc, λ h. let same = (==_iff b v).1 (h b refl) in cc)
  ]
]

cross_conflict-nil :
    (t : Tables) (idx : ℕ) (name pkg v : Text)
    → t.reported ≡ []
    → (cross_conflict t idx name pkg v ≡ [])
      ↔ ((e : Pinned) → lookup pkg t.established ≡ some e → (e.idx ≡ idx) ⊎ (e.version ≡ v))
cross_conflict-nil t idx name pkg v clear = elim (Option-cases (lookup pkg t.established)) [
  | inl e ↦ rw (e, cross_conflict) (λ h w e'. cc, λ h. refl)
  | inr (b, e) ↦ elim (Bool-cases (same_code b.idx idx)) [
    | inl s ↦
        rw (e, s, cross_conflict)
          (λ h w e'. let same : b.idx ≡ idx = ground arith in inl cc, λ h. refl)
    | inr s ↦ elim (Bool-cases (b.version == v)) [
      | inl s' ↦
          rw (e, s, s', cross_conflict)
            (λ h w e'. let same = (==_iff b.version v).0 s' in inr cc, λ h. refl)
      | inr s' ↦
          rw (e, s, s', clear, cross_conflict)
            (
              λ h. cc,
              λ h. elim (h b refl) [
                | inl same ↦ ground arith
                | inr same ↦ let same' = (==_iff b.version v).1 same in cc
              ],
            )
    ]
  ]
]

module _ (runner : RunnerInfo) (idx : ℕ) (name : Text) (t : Tables) (pkg v : Text)
    (clean : Clean idx t) where
  prev-of-cross :
      ((w : Text) → lookup pkg t.local ≡ some w → w ≡ v)
      → ((e : Pinned) → lookup pkg t.established ≡ some e → (e.idx ≡ idx) ⊎ (e.version ≡ v))
      → (e : Pinned) → lookup pkg t.established ≡ some e
      → e.version ≡ v
  prev-of-cross own other e at = elim (other e at) [
    | inl same ↦ own e.version (clean.own_local pkg e at same)
    | inr same ↦ same
  ]

  local-of-prev :
      ((e : Pinned) → lookup pkg t.established ≡ some e → e.version ≡ v)
      → (w : Text) → lookup pkg t.local ≡ some w
      → w ≡ v
  local-of-prev prev w at =
      let (e, known, same) = clean.local_known pkg w at in sym same ∙ prev e known

  pub pin_conflicts-nil : (pin_conflicts runner idx name t pkg v ≡ []) ↔ Fits runner t pkg v
  pin_conflicts-nil =
      let base = baseline_conflict-nil runner name pkg v in
      let own = local_conflict-nil t.local name pkg v in
      let other = cross_conflict-nil t idx name pkg v clean.unreported in
      let outer =
        append-eq-nil (baseline_conflict runner name pkg v)
          (local_conflict t.local name pkg v ++ cross_conflict t idx name pkg v) in
      let inner =
        append-eq-nil (local_conflict t.local name pkg v) (cross_conflict t idx name pkg v) in
      (
        λ h.
            let (h0, h12) = outer.0 h in
            let (h1, h2) = inner.0 h12 in
            record { base = base.0 h0; prev = prev-of-cross (own.0 h1) (other.0 h2) },
        λ f. outer.1 (
          base.1 f.base,
          inner.1 (own.1 (local-of-prev f.prev), other.1 (λ e at. inr (f.prev e at))),
        ),
      )

  abbrev pinned : Pinned
  pinned = record { idx = idx; cap_name = name; version = v }

  pub noted-Known :
      Fits runner t pkg v
      → (j : Text) → (w : Text) → (Known t.established j w ⊎ ((j ≡ pkg) × (w ≡ v)))
      → Known (noted t idx name pkg v).established j w
  noted-Known f j w (inl (e, at, same)) = (e, put_new-kept pkg j pinned e t.established at, same)
  noted-Known f j w (inr (named, same)) = elim (Option-cases (lookup pkg t.established)) [
    | inl fresh ↦ (
      pinned,
      ap (λ x. lookup x (noted t idx name pkg v).established) named
          ∙ put_new-absent pkg pinned t.established fresh,
      sym same,
    )
    | inr (e, at) ↦ (
      e,
      ap (λ x. lookup x (noted t idx name pkg v).established) named
          ∙ put_new-kept pkg pkg pinned e t.established at,
      f.prev e at ∙ sym same,
    )
  ]

  note_reported-nil : Fits runner t pkg v → note_reported t idx pkg v ≡ []
  note_reported-nil f = elim (Option-cases (lookup pkg t.established)) [
    | inl e ↦ rw (e, clean.unreported, note_reported) refl
    | inr (b, e) ↦
        let same = (==_iff b.version v).1 (f.prev b e) in
        elim (Bool-cases (same_code b.idx idx)) [
          | inl s ↦ rw (e, s, clean.unreported, note_reported) refl
          | inr s ↦ rw (e, s, same, clean.unreported, note_reported) refl
        ]
  ]

  noted-own_local :
      Fits runner t pkg v
      → (j : Text) (e : Pinned) → lookup j (noted t idx name pkg v).established ≡ some e
      → e.idx ≡ idx
      → lookup j (noted t idx name pkg v).local ≡ some e.version
  noted-own_local f j e at own = elim (put_new-origin pkg j pinned e t.established at) [
    | inl old ↦ put_new-kept pkg j v e.version t.local (clean.own_local j e old own)
    | inr (fresh, named, same) ↦ elim (Option-cases (lookup pkg t.local)) [
      | inl absent ↦
          ap (λ x. lookup x (put_new pkg v t.local)) (sym named)
          ∙ put_new-absent pkg v t.local absent
          ∙ ap (λ p. some p.version) same
      | inr (w, known) ↦ let (e', at', _) = clean.local_known pkg w known in cc
    ]
  ]

  pub noted-Clean : Fits runner t pkg v → Clean idx (noted t idx name pkg v)
  noted-Clean f = record {
    unreported = note_reported-nil f;
    local_known = λ j w at. elim (put_new-origin pkg j v w t.local at) [
      | inl old ↦ noted-Known f j w (inl (clean.local_known j w old))
      | inr (fresh, named, same) ↦ noted-Known f j w (inr (sym named, sym same))
    ];
    own_local = noted-own_local f;
    earlier = λ j e at. elim (put_new-origin pkg j pinned e t.established at) [
      | inl old ↦ clean.earlier j e old
      | inr (fresh, named, same) ↦ let own = ap (λ p. p.idx) same in omega (arith, own)
    ];
  }
