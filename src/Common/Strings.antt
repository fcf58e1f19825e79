-- ===== src/Common/Strings.antt =====
-- Text as the list of its code points, with the functions of Go's `strings` package that the
-- program calls.
use Prim.Native.Nat.{ℕ}
use Prim.Native.Char.{code}
use Prim.Native.String.{String}
use mathlib.Core.Path.{◌≡◌, refl}
use mathlib.Core.Logic.{◌↔◌}
use mathlib.Core.Bool.{Bool, true, false, ◌&&◌, ◌||◌, not}
use mathlib.Core.Option.{Option, none, some}
use mathlib.Core.List.{List, [], ◌∷◌, Memᴰ}
use native.Mathlib.Omega.{arith}
use flokoa.Common.Tests.{same_code, if◌then◌else◌, ltb}
use flokoa.Common.Lists.{Memᴰ-cons, Memᴰ-nil}

-- A Go string that is valid UTF-8.
abbrev pub Text : Type 0
Text = List ℕ

-- A literal.
abbrev pub codes : String → Text
codes String.[] = []
codes (String.◌∷◌ c s) = code c ∷ codes s

infix 50 ◌==◌
unfoldable pub ◌==◌ : Text → Text → Bool
[] == [] = true
(x ∷ xs) == (y ∷ ys) = same_code x y && (xs == ys)
_ == _ = false

pub ==_iff : (s t : Text) → ((s == t) ≡ true) ↔ (s ≡ t)
unfolding ◌==◌
==_iff [] [] = ground arith
==_iff (x ∷ xs) (y ∷ ys) = ground (arith, ==_iff xs ys)
==_iff [] (y ∷ ys) = ground arith
==_iff (x ∷ xs) [] = ground arith

pub ==_refl : (s : Text) → (s == s) ≡ true
==_refl s = (==_iff s s).1 refl

abbrev pub is_empty : Text → Bool
is_empty [] = true
is_empty (x ∷ xs) = false

-- Whether a Go map that is used as a set has a key; the map is the list of the keys put in.
unfoldable pub contains : Text → List Text → Bool
unfolding ◌==◌
contains t [] = false
contains t (x ∷ xs) = t == x || contains t xs

pub contains_iff : (t : Text) (xs : List Text) → (contains t xs ≡ true) ↔ Memᴰ t xs
unfolding contains
contains_iff t [] = (λ h. cc, λ m. absurd (Memᴰ-nil m))
contains_iff t (x ∷ xs) = ground (arith, contains_iff t xs, ==_iff t x, Memᴰ-cons t x xs)

-- `strings.HasPrefix`
unfoldable pub has_prefix : Text → Text → Bool
has_prefix s [] = true
has_prefix [] (p ∷ ps) = false
has_prefix (c ∷ s) (p ∷ ps) = same_code c p && has_prefix s ps

-- `strings.TrimPrefix`, where the prefix is there.
unfoldable pub drop_prefix : Text → Text → Text
drop_prefix s [] = s
drop_prefix [] (p ∷ ps) = []
drop_prefix (c ∷ s) (p ∷ ps) = drop_prefix s ps

-- `strings.TrimPrefix`
unfoldable pub trim_prefix : Text → Text → Text
unfolding has_prefix drop_prefix
trim_prefix s p = if has_prefix s p then drop_prefix s p else s

-- `strings.SplitN(s, ".", 2)`: the two parts, or `none` where there is no dot.
unfoldable pub split_dot : Text → Option (Text × Text)
split_dot [] = none
split_dot (c ∷ s) =
    let rest = split_dot s in
    if same_code c b'.'
    then some ([], s)
    else elim rest [ none ↦ none | some (a, b) ↦ some (c ∷ a, b) ]

abbrev between : ℕ → ℕ → ℕ → Bool
between c lo hi = not (ltb c lo) && not (ltb hi c)

-- `unicode.IsSpace`
unfoldable pub is_space : ℕ → Bool
is_space c =
    between c 9 13
    || same_code c 32
    || same_code c 0x85
    || same_code c 0xa0
    || same_code c 0x1680
    || between c 0x2000 0x200a
    || between c 0x2028 0x2029
    || same_code c 0x202f
    || same_code c 0x205f
    || same_code c 0x3000

unfoldable pub trim_left : (ℕ → Bool) → Text → Text
trim_left p [] = []
trim_left p (c ∷ s) = let rest = trim_left p s in if p c then rest else c ∷ s

unfoldable pub trim_right : (ℕ → Bool) → Text → Text
trim_right p [] = []
trim_right p (c ∷ s) = let rest = trim_right p s in if p c && is_empty rest then [] else c ∷ rest

-- `strings.TrimSpace`
unfoldable pub trim_space : Text → Text
unfolding is_space trim_left trim_right
trim_space s = trim_right is_space (trim_left is_space s)
