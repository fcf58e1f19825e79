-- ===== src/A2a/Endpoints/Trimmed.antt =====
-- What is left of an endpoint without the spaces around it and the slashes at its end.
use flokoa.Common.{
  ℕ, Bool, true, false, ◌≡◌, ◌≢◌, refl, sym, ap, ◌∙◌, [], ◌∷◌, ◌++◌, append_assoc, All, All-imp,
  Text, is_empty, is_space, trim_left, trim_right, trim_space, Bool-cases, arith, inl, inr,
}
use flokoa.A2a.Endpoints.{is_slash, a2a_path, trimmed_endpoint}

abbrev pub Spaces : Text → Type 0
Spaces = All (λ c. is_space c ≡ true)

-- The text starts with no space and ends with no space or slash.
pub record IsAddress (text : Text) : Type 0 where
  pub first : ℕ
  pub rest : Text
  pub starts : text ≡ first ∷ rest
  pub no_space : is_space first ≡ false
  pub front : Text
  pub last : ℕ
  pub ends : text ≡ (front ++ last ∷ [])
  pub no_last_space : is_space last ≡ false
  pub no_slash : last ≢ b'/'

-- The endpoint is the text with spaces around it, and slashes at its end.
pub record Holds (text endpoint : Text) : Type 0 where
  pub before : Text
  pub slashes : Text
  pub after : Text
  pub spaces_before : Spaces before
  pub only_slashes : All (λ c. c ≡ b'/') slashes
  pub spaces_after : Spaces after
  pub whole : endpoint ≡ (before ++ (text ++ (slashes ++ after)))

pub address-ne-nil : (text : Text) → IsAddress text → text ≢ []
address-ne-nil text good e = nonempty_ good.first good.rest (sym good.starts ∙ e)
  where
    nonempty_ : (c : ℕ) (s : Text) → (c ∷ s) ≢ []
    nonempty_ c s h = cc

pub with_path-IsAddress : (text : Text) → IsAddress text → IsAddress (text ++ a2a_path)
unfolding is_space
with_path-IsAddress text good = record {
  first = good.first;
  rest = good.rest ++ a2a_path;
  starts = ap (λ t. t ++ a2a_path) good.starts;
  no_space = good.no_space;
  front = text ++ (b'/' ∷ b'a' ∷ b'2' ∷ []);
  last = b'a';
  ends = sym (append_assoc text (b'/' ∷ b'a' ∷ b'2' ∷ []) (b'a' ∷ []));
  no_last_space = refl;
  no_slash = omega arith;
}

module _ (p : ℕ → Bool) where
  trim_left-append :
      (w : Text) (c : ℕ) (s : Text)
      → All (λ d. p d ≡ true) w
      → p c ≡ false
      → trim_left p (w ++ c ∷ s) ≡ c ∷ s
  unfolding trim_left
  trim_left-append [] c s h k = rw k refl
  trim_left-append (d ∷ w) c s (h, hs) k = rw h (trim_left-append w c s hs k)

  trim_right-all : (w : Text) → All (λ d. p d ≡ true) w → trim_right p w ≡ []
  unfolding trim_right
  trim_right-all [] h = refl
  trim_right-all (d ∷ w) (h, hs) = rw (h, trim_right-all w hs) refl

  trim_right-none : (s : Text) → All (λ d. p d ≡ false) s → trim_right p s ≡ s
  unfolding trim_right
  trim_right-none [] h = refl
  trim_right-none (d ∷ s) (h, hs) = rw (h, trim_right-none s hs) refl

  trim_right-append :
      (s w : Text) → All (λ d. p d ≡ true) w → trim_right p (s ++ w) ≡ trim_right p s
  unfolding trim_right
  trim_right-append [] w h = trim_right-all w h
  trim_right-append (c ∷ s) w h = rw (trim_right-append s w h) refl

  filled_front : (t : Text) (d : ℕ) (s : Text) → is_empty (t ++ d ∷ s) ≡ false
  filled_front [] d s = refl
  filled_front (c ∷ t) d s = refl

  kept_front :
      (t : Text) (d : ℕ) (s w : Text)
      → All (λ c. p c ≡ false) (d ∷ s)
      → All (λ c. p c ≡ true) w
      → trim_right p (t ++ ((d ∷ s) ++ w)) ≡ (t ++ d ∷ s)
  unfolding trim_right
  kept_front [] d s w h k = trim_right-append (d ∷ s) w k ∙ trim_right-none (d ∷ s) h
  kept_front (c ∷ t) d s w h k = elim (Bool-cases (p c)) [
    | inl e ↦ rw (e, kept_front t d s w h k, filled_front t d s) refl
    | inr e ↦ rw (e, kept_front t d s w h k) refl
  ]

slash_lem : (c : ℕ) → c ≡ b'/' → (is_space c ≡ false) × (is_slash c ≡ true)
unfolding is_space
slash_lem c e = rw e (refl, refl)

pub trimmed_endpoint-Holds :
    (text endpoint : Text) → IsAddress text → Holds text endpoint → trimmed_endpoint endpoint ≡ text
unfolding trim_space
trimmed_endpoint-Holds text endpoint good h =
    let tail_ = h.slashes ++ h.after in
    let start : (text ++ tail_) ≡ good.first ∷ (good.rest ++ tail_) =
      ap (λ t. t ++ tail_) good.starts in
    let left : trim_left is_space endpoint ≡ (text ++ tail_) =
      ap (trim_left is_space) (h.whole ∙ ap (λ t. h.before ++ t) start)
      ∙ trim_left-append is_space h.before good.first _ h.spaces_before good.no_space
      ∙ sym start in
    let parts : (text ++ tail_) ≡ (good.front ++ ((good.last ∷ h.slashes) ++ h.after)) =
      ap (λ t. t ++ tail_) good.ends ∙ append_assoc good.front (good.last ∷ []) tail_ in
    let spaced : trim_space endpoint ≡ (good.front ++ good.last ∷ h.slashes) =
      ap (trim_right is_space) (left ∙ parts)
      ∙ kept_front is_space good.front good.last h.slashes h.after
          (
            good.no_last_space,
            All-imp (λ c. c ≡ b'/') (λ c. is_space c ≡ false) h.slashes (λ c e. (slash_lem c e).0)
                h.only_slashes,
          )
          h.spaces_after in
    ap (trim_right is_slash) spaced
    ∙ kept_front is_slash good.front good.last [] h.slashes (ground (arith, good.no_slash), tt)
        (All-imp (λ c. c ≡ b'/') (λ c. is_slash c ≡ true) h.slashes (λ c e. (slash_lem c e).1)
          h.only_slashes)
    ∙ sym good.ends
