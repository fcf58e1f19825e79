-- ===== src/Common/Lists.antt =====
-- Lists over native numbers, and predicates on lists by recursion.
use Prim.Native.Nat.{ℕ, zero, suc, ◌+◌}
use mathlib.Core.Path.{◌≡◌, refl, sym, ap, subst}
use mathlib.Core.Logic.{◌↔◌, ◌⊎◌, ⊎_elim, inl, inr}
use mathlib.Core.Bool.{Bool, true, false}
use mathlib.Core.List.{List, [], ◌∷◌, ◌++◌, map, Memᴰ}
use mathlib.Core.List.Memᴰ
use native.Mathlib.Omega.{arith}

module _ {ℓ} {A : Type ℓ} where
  abbrev pub length : List A → ℕ
  length [] = 0
  length (x ∷ xs) = suc (length xs)

  -- `len(xs) > 0`
  abbrev pub nonempty : List A → Bool
  nonempty [] = false
  nonempty (x ∷ xs) = true

  abbrev pub take : ℕ → List A → List A
  take zero xs = []
  take (suc n) [] = []
  take (suc n) (x ∷ xs) = x ∷ take n xs

  abbrev pub drop : ℕ → List A → List A
  drop zero xs = xs
  drop (suc n) [] = []
  drop (suc n) (x ∷ xs) = drop n xs

  -- No element comes twice.
  abbrev pub Distinct : List A → Type ℓ
  Distinct [] = Unit
  Distinct (x ∷ xs) = (¬ Memᴰ x xs) × Distinct xs

  pub take-append : (xs ys : List A) → take (length xs) (xs ++ ys) ≡ xs
  take-append [] ys = refl
  take-append (x ∷ xs) ys = ap (λ zs. x ∷ zs) (take-append xs ys)

  pub drop-append : (xs ys : List A) → drop (length xs) (xs ++ ys) ≡ ys
  drop-append [] ys = refl
  drop-append (x ∷ xs) ys = drop-append xs ys

  pub length-append : (xs ys : List A) → length (xs ++ ys) ≡ length xs + length ys
  length-append [] ys = omega arith
  length-append (x ∷ xs) ys = omega (arith, length-append xs ys)

  pub Memᴰ-cons : (a x : A) (xs : List A) → Memᴰ a (x ∷ xs) ↔ ((a ≡ x) ⊎ Memᴰ a xs)
  Memᴰ-cons a x xs = (Memᴰ.cases_cons, ⊎_elim Memᴰ.head Memᴰ.tail)

  pub Memᴰ-nil : {a : A} → Memᴰ a [] → ⊥
  Memᴰ-nil m = Memᴰ.not-nil m

  pub Memᴰ-left : (a : A) (xs ys : List A) → Memᴰ a xs → Memᴰ a (xs ++ ys)
  Memᴰ-left a [] ys m = absurd (Memᴰ-nil m)
  Memᴰ-left a (x ∷ xs) ys m = elim ((Memᴰ-cons a x xs).0 m) [
    | inl same ↦ (Memᴰ-cons a x (xs ++ ys)).1 (inl same)
    | inr later ↦ (Memᴰ-cons a x (xs ++ ys)).1 (inr (Memᴰ-left a xs ys later))
  ]

  pub Memᴰ_append_cases : (a : A) (xs ys : List A) → Memᴰ a (xs ++ ys) → Memᴰ a xs ⊎ Memᴰ a ys
  Memᴰ_append_cases a [] ys m = inr m
  Memᴰ_append_cases a (x ∷ xs) ys m = elim ((Memᴰ-cons a x (xs ++ ys)).0 m) [
    | inl same ↦ inl (Memᴰ.head same)
    | inr later ↦ elim (Memᴰ_append_cases a xs ys later) [
      | inl l ↦ inl (Memᴰ.tail l)
      | inr r ↦ inr r
    ]
  ]

  pub Memᴰ-last : (a : A) (xs : List A) → Memᴰ a (xs ++ a ∷ [])
  Memᴰ-last a [] = (Memᴰ-cons a a []).1 (inl refl)
  Memᴰ-last a (x ∷ xs) = (Memᴰ-cons a x (xs ++ a ∷ [])).1 (inr (Memᴰ-last a xs))

  -- An error list is empty exactly when its parts are.
  pub append-eq-nil : (xs ys : List A) → ((xs ++ ys) ≡ []) ↔ ((xs ≡ []) × (ys ≡ []))
  append-eq-nil [] ys = (λ h. (refl, h), λ h. h.1)
  append-eq-nil (x ∷ xs) ys = (λ h. cc, λ h. cc)

module _ {ℓ κ} {A : Type ℓ} (P : A → Type κ) where
  abbrev pub All : List A → Type κ
  All [] = Unit
  All (x ∷ xs) = P x × All xs

  pub All-append : (xs ys : List A) → All xs → All ys → All (xs ++ ys)
  All-append [] ys hx hy = hy
  All-append (x ∷ xs) ys (p, hx) hy = (p, All-append xs ys hx hy)

-- The two lists have one length, and the relation holds of their elements in order.
abbrev pub Pointwise {ℓ κ} : {A : Type ℓ} {B : Type κ} → (A → B → Type 0) → List A → List B → Type 0
Pointwise R [] [] = Unit
Pointwise R (x ∷ xs) (y ∷ ys) = R x y × Pointwise R xs ys
Pointwise R _ _ = ⊥

pub Pointwise-map {ℓ κ} :
    {A : Type ℓ} {B : Type κ} (R : A → B → Type 0) (f : A → B) (xs : List A)
    → ((a : A) → R a (f a))
    → Pointwise R xs (map f xs)
Pointwise-map R f [] h = tt
Pointwise-map R f (x ∷ xs) h = (h x, Pointwise-map R f xs h)

pub mem-Pointwise {ℓ κ} :
    {A : Type ℓ} {B : Type κ} (R : A → B → Type 0) (a : A) (xs : List A) (ys : List B)
    → Memᴰ a xs
    → Pointwise R xs ys
    → (b : B) × Memᴰ b ys × R a b
mem-Pointwise R a [] ys m h = absurd (Memᴰ-nil m)
mem-Pointwise R a (x ∷ xs) [] m h = absurd h
mem-Pointwise R a (x ∷ xs) (y ∷ ys) m (h, hs) = elim ((Memᴰ-cons a x xs).0 m) [
  | inl same ↦ (y, Memᴰ.head refl, subst (λ z. R z y) (sym same) h)
  | inr later ↦ let (b, mb, r) = mem-Pointwise R a xs ys later hs in (b, Memᴰ.tail mb, r)
]

pub All-mem {ℓ κ} : {A : Type ℓ} (P : A → Type κ) (a : A) (xs : List A) → Memᴰ a xs → All P xs → P a
All-mem P a [] m h = absurd (Memᴰ-nil m)
All-mem P a (x ∷ xs) m (h, hs) = elim ((Memᴰ-cons a x xs).0 m) [
  | inl same ↦ subst P (sym same) h
  | inr later ↦ All-mem P a xs later hs
]

pub All-imp {ℓ κ μ} :
    {A : Type ℓ} (P : A → Type κ) (Q : A → Type μ) (xs : List A)
    → ((a : A) → P a → Q a)
    → All P xs
    → All Q xs
All-imp P Q [] f h = tt
All-imp P Q (x ∷ xs) f (h, hs) = (f x h, All-imp P Q xs f hs)

pub mem-map-append_right {ℓ κ} :
    {A : Type ℓ} {B : Type κ} (f : A → B) (b : B) (xs ys : List A)
    → Memᴰ b (map f ys)
    → Memᴰ b (map f (xs ++ ys))
mem-map-append_right f b [] ys m = m
mem-map-append_right f b (x ∷ xs) ys m = Memᴰ.tail (mem-map-append_right f b xs ys m)
