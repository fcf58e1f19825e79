-- ===== src/Common/Prefix.antt =====
-- Laws of the string functions: prefixes, and the cut at the first place of a code.
use Prim.Native.Nat.{ℕ}
use mathlib.Core.Path.{◌≡◌, refl, ap, subst}
use mathlib.Core.Logic.{◌≢◌, inl, inr}
use mathlib.Core.Bool.{true}
use mathlib.Core.Option.{Option, none, some}
use mathlib.Core.List.{[], ◌∷◌, ◌++◌}
use native.Mathlib.Omega.{arith}
use flokoa.Common.Tests.{same_code, Bool-cases, if◌then◌else◌}
use flokoa.Common.Lists.{All}
use flokoa.Common.Strings.{Text, has_prefix, drop_prefix, trim_prefix, split_dot}

pub has_prefix-append : (p s : Text) → has_prefix (p ++ s) p ≡ true
unfolding has_prefix
has_prefix-append [] s = refl
has_prefix-append (c ∷ p) s = ground (arith, has_prefix-append p s)

pub drop_prefix-append : (p s : Text) → drop_prefix (p ++ s) p ≡ s
unfolding drop_prefix
drop_prefix-append [] s = refl
drop_prefix-append (c ∷ p) s = drop_prefix-append p s

pub trim_prefix-append : (p s : Text) → trim_prefix (p ++ s) p ≡ s
unfolding trim_prefix
trim_prefix-append p s = rw (has_prefix-append p s) (drop_prefix-append p s)

pub append-drop_prefix : (s p : Text) → has_prefix s p ≡ true → (p ++ drop_prefix s p) ≡ s
unfolding has_prefix drop_prefix
append-drop_prefix s [] h = refl
append-drop_prefix [] (c ∷ p) h = cc
append-drop_prefix (d ∷ s) (c ∷ p) h = ground (arith, append-drop_prefix s p)

pub append-trim_prefix : (s p : Text) → has_prefix s p ≡ true → (p ++ trim_prefix s p) ≡ s
unfolding trim_prefix
append-trim_prefix s p h = rw h (append-drop_prefix s p h)

-- No character of the text is a dot.
abbrev pub NoDot : Text → Type 0
NoDot = All (λ c. c ≢ b'.')

abbrev Cut : Text → Option (Text × Text) → Type 0
Cut s none = Unit
Cut s (some (a, b)) = (s ≡ (a ++ b'.' ∷ b)) × NoDot a

Cut-cons :
    (c : ℕ) (s : Text) (r : Option (Text × Text))
    → c ≢ b'.'
    → Cut s r
    → Cut (c ∷ s) (elim r [ none ↦ none | some (a, b) ↦ some (c ∷ a, b) ])
Cut-cons c s none ne h = tt
Cut-cons c s (some (a, b)) ne (e, h) = (ap (λ t. c ∷ t) e, (ne, h))

split_dot-Cut : (s : Text) → Cut s (split_dot s)
unfolding split_dot
split_dot-Cut [] = tt
split_dot-Cut (c ∷ s) = elim (Bool-cases (same_code c b'.')) [
  | inl dot ↦ rw (dot, if◌then◌else◌) (ground arith)
  | inr other ↦
      rw (other, if◌then◌else◌) (Cut-cons c s (split_dot s) (ground arith) (split_dot-Cut s))
]

pub split_dot_sound : (s a b : Text) → split_dot s ≡ some (a, b) → (s ≡ (a ++ b'.' ∷ b)) × NoDot a
split_dot_sound s a b h = subst (Cut s) h (split_dot-Cut s)

pub split_dot-append : (a b : Text) → NoDot a → split_dot (a ++ b'.' ∷ b) ≡ some (a, b)
unfolding split_dot
split_dot-append [] b h = refl
split_dot-append (c ∷ a) b (h, hs) = ground (arith, split_dot-append a b hs)

-- The text does not have the code.
abbrev pub Avoids : ℕ → Text → Type 0
Avoids k = All (λ c. c ≢ k)

-- A text that avoids a code ends where the code first stands.
pub cut_injective :
    (k : ℕ) (a b s t : Text)
    → Avoids k a
    → Avoids k b
    → (a ++ k ∷ s) ≡ (b ++ k ∷ t)
    → (a ≡ b) × (s ≡ t)
cut_injective k [] [] s t ha hb e = (refl, cc)
cut_injective k [] (y ∷ b) s t ha (hy, hb) e = absurd (hy (cc))
cut_injective k (x ∷ a) [] s t (hx, ha) hb e = absurd (hx (cc))
cut_injective k (x ∷ a) (y ∷ b) s t (hx, ha) (hy, hb) e =
    let (p, q) = cut_injective k a b s t ha hb (cc) in (cc, q)
