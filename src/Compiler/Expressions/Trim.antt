-- ===== src/Compiler/Expressions/Trim.antt =====
-- The spaces around a group of expressionRe, and the trimming of its text.
use flokoa.Common.{
  ℕ, ◌≡◌, refl, sym, ap, ◌∙◌, inl, inr, Bool, true, false, ◌&&◌, [], ◌∷◌, Text, is_space, is_empty,
  trim_left, trim_right, trim_space, if◌then◌else◌, Bool-cases, arith,
}
use flokoa.Expression.{is_regex_space, last_of, capture}

regex_space-is_space : (c : ℕ) → is_regex_space c ≡ true → is_space c ≡ true
unfolding is_regex_space is_space
regex_space-is_space c h = ground arith

trim_left-trim_left :
    (s : Text) → trim_left is_space (trim_left is_regex_space s) ≡ trim_left is_space s
unfolding trim_left
trim_left-trim_left [] = refl
trim_left-trim_left (c ∷ s) = ground (arith, trim_left-trim_left s, regex_space-is_space c)

empty_lem : (t : Text) → is_empty t ≡ true → t ≡ []
empty_lem [] e = refl
empty_lem (c ∷ t) e = cc

dropped : (b : Bool) (t : Text) → (b && is_empty t) ≡ true → (b ≡ true) × (t ≡ [])
dropped true t e = (refl, empty_lem t e)
dropped false t e = cc

trim_right-trim_right :
    (s : Text) → trim_right is_space (trim_right is_regex_space s) ≡ trim_right is_space s
unfolding trim_right
trim_right-trim_right [] = refl
trim_right-trim_right (c ∷ s) =
    elim (Bool-cases (is_regex_space c && is_empty (trim_right is_regex_space s))) [
      | inl e ↦
          let (space, rest) = dropped (is_regex_space c) (trim_right is_regex_space s) e in
          let gone : trim_right is_space s ≡ [] =
            sym (trim_right-trim_right s) ∙ ap (trim_right is_space) rest in
          rw (e, gone, regex_space-is_space c space) refl
      | inr e ↦ rw (e, trim_right-trim_right s) refl
    ]

trim_left-trim_right :
    (s : Text)
    → trim_left is_space (trim_right is_regex_space s)
      ≡ trim_right is_regex_space (trim_left is_space s)
unfolding trim_left trim_right
trim_left-trim_right [] = refl
trim_left-trim_right (c ∷ s) =
    elim (Bool-cases (is_regex_space c && is_empty (trim_right is_regex_space s))) [
      | inl e ↦
          let (space, rest) = dropped (is_regex_space c) (trim_right is_regex_space s) e in
          let gone : trim_right is_regex_space (trim_left is_space s) ≡ [] =
            sym (trim_left-trim_right s) ∙ ap (trim_left is_space) rest in
          rw (e, regex_space-is_space c space) (sym gone)
      | inr e ↦ elim (Bool-cases (is_space c)) [
        | inl space ↦ rw (e, space) (trim_left-trim_right s)
        | inr other ↦ rw (e, other, trim_right) (rw e refl)
      ]
    ]

abbrev core : Text → Text
core inner = trim_right is_regex_space (trim_left is_regex_space inner)

trim_space-core : (inner : Text) → trim_space (core inner) ≡ trim_space inner
unfolding trim_space
trim_space-core inner =
    ap (trim_right is_space) (trim_left-trim_right (trim_left is_regex_space inner))
    ∙ (trim_right-trim_right (trim_left is_space (trim_left is_regex_space inner))
        ∙ ap (trim_right is_space) (trim_left-trim_left inner))

kept : (b : Bool) (c : ℕ) (t : Text) → b ≡ false → ¬ ((if b && is_empty t then [] else c ∷ t) ≡ [])
kept false c t e h = cc
kept true c t e h = cc

left_of_core : (s : Text) → core s ≡ [] → trim_left is_regex_space s ≡ []
unfolding trim_left trim_right
left_of_core [] h = refl
left_of_core (c ∷ s) h = elim (Bool-cases (is_regex_space c)) [
  | inl e ↦ rw e (left_of_core s (rw e at h))
  | inr e ↦
      absurd
        (kept (is_regex_space c) c (trim_right is_regex_space s) e (rw (e, if◌then◌else◌) at h))
]

spaces-last_of :
    (s : Text) → trim_left is_regex_space s ≡ [] → trim_left is_regex_space (last_of s) ≡ []
unfolding trim_left
spaces-last_of [] h = refl
spaces-last_of (c ∷ []) h = h
spaces-last_of (c ∷ d ∷ s) h = elim (Bool-cases (is_regex_space c)) [
  | inl e ↦ spaces-last_of (d ∷ s) (rw (e, if◌then◌else◌) at h)
  | inr e ↦ absurd (cons-ne-nil (rw (e, if◌then◌else◌) at h))
]
  where
    cons-ne-nil : ¬ (◌≡◌ {A = Text} (c ∷ d ∷ s) [])
    cons-ne-nil h = cc

trim_space_of_spaces : (s : Text) → trim_left is_regex_space s ≡ [] → trim_space s ≡ []
unfolding trim_space trim_left trim_right
trim_space_of_spaces s h =
    ap (trim_right is_space) (sym (trim_left-trim_left s) ∙ ap (trim_left is_space) h)

pub trim_space-capture : (inner : Text) → trim_space (capture inner) ≡ trim_space inner
unfolding capture
trim_space-capture inner = elim (Bool-cases (is_empty (core inner))) [
  | inl e ↦
      let blank = left_of_core inner (empty_lem (core inner) e) in
      rw (e, if◌then◌else◌)
        (trim_space_of_spaces (last_of inner) (spaces-last_of inner blank)
          ∙ sym (trim_space_of_spaces inner blank))
  | inr e ↦ rw (e, if◌then◌else◌) (trim_space-core inner)
]
