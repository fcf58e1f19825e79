-- ===== src/Expression/Pieces.antt =====
-- The cut of a text into the matches of the expression pattern and the other characters.
use flokoa.Common.{
  ℕ, zero, suc, ◌+◌, ◌≡◌, refl, sym, ap, ap₂, subst, ◌∙◌, ◌≢◌, inl, inr, true, false, some, [], ◌∷◌,
  ◌++◌, Text, codes, same_code, is_empty, has_prefix, drop_prefix, append-drop_prefix,
  if◌then◌else◌, length, length-append, drop, drop-append, All, append_assoc, Bool-cases,
  Option-cases, arith, cut_injective, List, Option, none, ◌↔◌,
}
use flokoa.Expression.Scan.{
  run, after_run, body, match_at, scan, pieces, braced, Piece, plain, expr,
}

abbrev pub NoBrace : Text → Type 0
NoBrace = All (λ c. c ≢ b'}')

run-NoBrace : (s : Text) → NoBrace (run s)
unfolding run
run-NoBrace [] = tt
run-NoBrace (c ∷ s) = elim (Bool-cases (same_code c b'}')) [
  | inl e ↦ rw (e, if◌then◌else◌) tt
  | inr e ↦ rw (e, if◌then◌else◌) (ground arith, run-NoBrace s)
]

run-append-after_run : (s : Text) → (run s ++ after_run s) ≡ s
unfolding run after_run
run-append-after_run [] = refl
run-append-after_run (c ∷ s) = ground (arith, run-append-after_run s)

-- What stands between the braces of a match.
pub record IsInner (inner : Text) : Type 0 where
  pub nonempty : inner ≢ []
  pub no_brace : NoBrace inner

not-empty : (t : Text) → is_empty t ≡ false → t ≢ []
not-empty [] e = cc
not-empty (c ∷ t) e = λ h. cc

body_some :
    (s inner : Text)
    → body s ≡ some inner
    → IsInner inner × (s ≡ (inner ++ (codes "}}" ++ drop_prefix (after_run s) (codes "}}"))))
unfolding body
body_some s inner h =
    let same : run s ≡ inner = ground arith in
    let full : is_empty (run s) ≡ false = ground arith in
    let closed : has_prefix (after_run s) (codes "}}") ≡ true = ground arith in
    (
      subst IsInner same (record { nonempty = not-empty (run s) full; no_brace = run-NoBrace s }),
      sym (run-append-after_run s)
          ∙ (ap (λ t. run s ++ t) (sym (append-drop_prefix (after_run s) (codes "}}") closed))
              ∙ ap (λ t. t ++ (codes "}}" ++ drop_prefix (after_run s) (codes "}}"))) same),
    )

match_at-some :
    (s inner : Text)
    → match_at s ≡ some inner
    → (rest : Text) × IsInner inner × (s ≡ (braced inner ++ rest))
unfolding match_at
match_at-some s inner h =
    let open_ : has_prefix s (codes "{{") ≡ true = ground arith in
    let (good, e) = body_some (drop_prefix s (codes "{{")) inner (ground arith) in
    let rest = drop_prefix (after_run (drop_prefix s (codes "{{"))) (codes "}}") in
    (
      rest,
      good,
      sym (append-drop_prefix s (codes "{{") open_)
          ∙ ap (λ t. codes "{{" ++ t) (e ∙ sym (append_assoc inner (codes "}}") rest)),
    )

drop-match :
    (c : ℕ) (s inner rest : Text)
    → (c ∷ s) ≡ (braced inner ++ rest)
    → (braced inner ++ drop (length inner + 3) s) ≡ (c ∷ s)
drop-match c s inner rest e =
    let tail_eq : s ≡ ((b'{' ∷ (inner ++ codes "}}")) ++ rest) = cc in
    let len : length inner + 3 ≡ length (b'{' ∷ (inner ++ codes "}}")) =
      omega (arith, length-append inner (codes "}}")) in
    ap (λ t. braced inner ++ t)
      (ap₂ drop len tail_eq ∙ drop-append (b'{' ∷ (inner ++ codes "}}")) rest)
    ∙ sym e

-- A match starts here.
abbrev pub Starts : Text → Type 0
Starts s = (inner : Text) × (rest : Text) × IsInner inner × (s ≡ (braced inner ++ rest))

-- The text is cut from left to right: wherever a match starts it is taken, and a single character is
-- taken where none does.
abbrev pub IsCut : List Piece → Text → Type 0
IsCut [] s = s ≡ []
IsCut (plain c ∷ ps) s = (¬ Starts s) × (rest : Text) × (s ≡ (c ∷ rest)) × IsCut ps rest
IsCut (expr inner ∷ ps) s =
    IsInner inner × (rest : Text) × (s ≡ (braced inner ++ rest)) × IsCut ps rest

run-append : (inner rest : Text) → NoBrace inner → run (inner ++ b'}' ∷ rest) ≡ inner
unfolding run
run-append [] rest h = refl
run-append (c ∷ inner) rest (h, hs) = ground (arith, run-append inner rest hs)

after_run-append :
    (inner rest : Text) → NoBrace inner → after_run (inner ++ b'}' ∷ rest) ≡ b'}' ∷ rest
unfolding after_run
after_run-append [] rest h = refl
after_run-append (c ∷ inner) rest (h, hs) = ground (arith, after_run-append inner rest hs)

full : (t : Text) → t ≢ [] → is_empty t ≡ false
full [] h = absurd (h refl)
full (c ∷ t) h = refl

body-append :
    (inner rest : Text) → IsInner inner → body (inner ++ (codes "}}" ++ rest)) ≡ some inner
unfolding body has_prefix
body-append inner rest h =
    rw
      (
        run-append inner (b'}' ∷ rest) h.no_brace,
        after_run-append inner (b'}' ∷ rest) h.no_brace,
        full inner h.nonempty,
      )
      refl

match_at-braced : (inner rest : Text) → IsInner inner → match_at (braced inner ++ rest) ≡ some inner
unfolding match_at has_prefix drop_prefix
match_at-braced inner rest h =
    ap body (append_assoc inner (codes "}}") rest) ∙ body-append inner rest h

not-Starts : (s : Text) → match_at s ≡ none → ¬ Starts s
not-Starts s e (inner, rest, good, split) =
    absurd-none inner (sym e ∙ ap match_at split ∙ match_at-braced inner rest good)
  where
    absurd-none : (t : Text) → ◌≡◌ {A = Option Text} none (some t) → ⊥
    absurd-none t h = cc

scan-IsCut : (skip : ℕ) (s : Text) → IsCut (scan skip s) (drop skip s)
unfolding scan
scan-IsCut zero [] = refl
scan-IsCut (suc skip) [] = refl
scan-IsCut (suc skip) (c ∷ s) = scan-IsCut skip s
scan-IsCut zero (c ∷ s) = elim (Option-cases (match_at (c ∷ s))) [
  | inl e ↦ rw (e, scan) (not-Starts (c ∷ s) e, s, refl, scan-IsCut zero s)
  | inr (inner, e) ↦
      let (rest, good, split) = match_at-some (c ∷ s) inner e in
      rw (e, scan)
        (
          good,
          drop (length inner + 3) s,
          sym (drop-match c s inner rest split),
          scan-IsCut (length inner + 3) s,
        )
]

-- Two matches that start at one place are the same.
braced-injective :
    (a b s t : Text) → IsInner a → IsInner b → (braced a ++ s) ≡ (braced b ++ t) → (a ≡ b) × (s ≡ t)
braced-injective a b s t ha hb e =
    let inside : (a ++ b'}' ∷ (b'}' ∷ s)) ≡ (b ++ b'}' ∷ (b'}' ∷ t)) =
      sym (append_assoc a (codes "}}") s) ∙ ap (λ x. drop 2 x) e ∙ append_assoc b (codes "}}") t in
    let (p, q) = cut_injective b'}' a b _ _ ha.no_brace hb.no_brace inside in (p, ap (drop 1) q)

IsCut-unique : (ps qs : List Piece) (s : Text) → IsCut ps s → IsCut qs s → ps ≡ qs
IsCut-unique [] [] s h k = refl
IsCut-unique [] (plain c ∷ qs) s h (_, rest, e, k) = cc
IsCut-unique [] (expr b ∷ qs) s h (_, rest, e, k) = cc
IsCut-unique (plain c ∷ ps) [] s (_, rest, e, h) k = cc
IsCut-unique (expr a ∷ ps) [] s (_, rest, e, h) k = cc
IsCut-unique (plain c ∷ ps) (expr b ∷ qs) s (none_here, _, _, _) (good, rest, e, k) =
    absurd (none_here (b, rest, good, e))
IsCut-unique (expr a ∷ ps) (plain d ∷ qs) s (good, rest, e, h) (none_here, _, _, _) =
    absurd (none_here (a, rest, good, e))
IsCut-unique (plain c ∷ ps) (plain d ∷ qs) s (_, x, e, h) (_, y, f, k) =
    let same : x ≡ y = cc in
    ap₂ (λ u v. plain u ∷ v) (cc) (IsCut-unique ps qs y (subst (IsCut ps) same h) k)
IsCut-unique (expr a ∷ ps) (expr b ∷ qs) s (ga, x, e, h) (gb, y, f, k) =
    let (inner, same) = braced-injective a b x y ga gb (sym e ∙ f) in
    ap₂ (λ u v. expr u ∷ v) inner (IsCut-unique ps qs y (subst (IsCut ps) same h) k)

-- A list of pieces is the one that the expression pattern gives for a text exactly when it cuts the
-- text from left to right, with a match wherever two open braces, a text that is not empty and has no
-- closing brace, and two closing braces follow, and a single character everywhere else.
pub pieces_lem : (ps : List Piece) (s : Text) → (ps ≡ pieces s) ↔ IsCut ps s
unfolding pieces
pieces_lem ps s = (
  λ e. subst (λ x. IsCut x s) (sym e) (scan-IsCut zero s),
  λ h. IsCut-unique ps (scan zero s) s h (scan-IsCut zero s),
)
