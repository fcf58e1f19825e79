-- ===== src/Hash/Order.antt =====
-- The order of strings, and sorting.
use mathlib.Core.List.{Permᴰ}
use flokoa.Common.{◌≡◌, refl, ap₂, ◌∙◌, List, [], ◌∷◌, true, false, Text, arith}
use flokoa.Hash.{text_le, insert, sort_strings}

text_le_total : (s t : Text) → text_le s t ≡ false → text_le t s ≡ true
unfolding text_le
text_le_total [] t h = cc
text_le_total (x ∷ s) [] h = refl
text_le_total (x ∷ s) (y ∷ t) h = ground (arith, text_le_total s t)

text_le_antisymm : (s t : Text) → text_le s t ≡ true → text_le t s ≡ true → s ≡ t
unfolding text_le
text_le_antisymm [] [] h k = refl
text_le_antisymm [] (y ∷ t) h k = cc
text_le_antisymm (x ∷ s) [] h k = cc
text_le_antisymm (x ∷ s) (y ∷ t) h k = ground (arith, text_le_antisymm s t)

text_le_trans : (s t u : Text) → text_le s t ≡ true → text_le t u ≡ true → text_le s u ≡ true
unfolding text_le
text_le_trans [] t u h k = refl
text_le_trans (x ∷ s) [] u h k = cc
text_le_trans (x ∷ s) (y ∷ t) [] h k = cc
text_le_trans (x ∷ s) (y ∷ t) (z ∷ u) h k = ground (arith, text_le_trans s t u)

insert_comm : (a b : Text) (l : List Text) → insert a (insert b l) ≡ insert b (insert a l)
unfolding insert
insert_comm a b [] = ground (arith, text_le_total a b, text_le_antisymm a b)
insert_comm a b (y ∷ l) = ground (
  arith,
  insert_comm a b l,
  text_le_total a b,
  text_le_antisymm a b,
  text_le_total a y,
  text_le_total b y,
  text_le_trans a b y,
  text_le_trans b a y,
)

pub sort_strings-Perm : {xs ys : List Text} → Permᴰ xs ys → sort_strings xs ≡ sort_strings ys
unfolding sort_strings
sort_strings-Perm Permᴰ.nil = refl
sort_strings-Perm (Permᴰ.cons e p) = ap₂ insert e (sort_strings-Perm p)
sort_strings-Perm (Permᴰ.swap {a} {b} {l = l} e e') =
    insert_comm a b (sort_strings l) ∙ ap₂ (λ x y. insert x (insert y (sort_strings l))) e' e
sort_strings-Perm (Permᴰ.trans p q) = sort_strings-Perm p ∙ sort_strings-Perm q
