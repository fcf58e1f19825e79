-- ===== src/Common/Dict.antt =====
-- A Go map with text keys as an association list with one entry for a key.
use mathlib.Core.Path.{◌≡◌, refl, sym, ap, subst, ◌∙◌}
use mathlib.Core.Bool.{Bool, true, false}
use mathlib.Core.Option.{Option, none, some}
use mathlib.Core.List.{List, [], ◌∷◌}
use native.Mathlib.Omega.{arith}
use mathlib.Core.Logic.{◌⊎◌, ◌≢◌, inl, inr}
use flokoa.Common.Tests.{if◌then◌else◌, Bool-cases, Option-cases}
use flokoa.Common.Lists.{All}
use flokoa.Common.Strings.{Text, ◌==◌, ==_iff, ==_refl}

module _ {ℓ} {V : Type ℓ} where
  -- `v, ok := m[k]`
  unfoldable pub lookup : Text → List (Text × V) → Option V
  lookup k [] = none
  lookup k ((j, v) ∷ m) = let rest = lookup k m in if j == k then some v else rest

  -- `delete(m, k)`
  unfoldable pub without : Text → List (Text × V) → List (Text × V)
  without k [] = []
  without k ((j, v) ∷ m) = let rest = without k m in if j == k then rest else (j, v) ∷ rest

  -- `m[k] = v`
  unfoldable pub put : Text → V → List (Text × V) → List (Text × V)
  unfolding without
  put k v m = (k, v) ∷ without k m

  pub lookup-without :
      (k j : Text) (m : List (Text × V))
      → lookup j (without k m) ≡ (if k == j then none else lookup j m)
  unfolding lookup without
  lookup-without k j [] = ground arith
  lookup-without k j ((i, w) ∷ m) =
      ground (arith, ==_iff k j, ==_iff i k, ==_iff i j, lookup-without k j m)

  pub lookup-put :
      (k j : Text) (v : V) (m : List (Text × V))
      → lookup j (put k v m) ≡ (if k == j then some v else lookup j m)
  unfolding lookup put
  lookup-put k j v m = ground (arith, lookup-without k j m)

  pub put-absent :
      (k j : Text) (v : V) (m : List (Text × V))
      → lookup j (put k v m) ≡ none
      → (k ≢ j) × (lookup j m ≡ none)
  put-absent k j v m at =
      let at' = λ (b : Bool) (s : (k == j) ≡ b).
        subst (λ b. (if b then some v else lookup j m) ≡ none) s (sym (lookup-put k j v m) ∙ at) in
      elim (Bool-cases (k == j)) [
        | inl s ↦ let bad = at' true s in cc
        | inr s ↦ (λ same. let s' = (==_iff k j).1 same in cc, at' false s)
      ]

  -- `if _, ok := m[k]; !ok { m[k] = v }`
  unfoldable pub put_new : Text → V → List (Text × V) → List (Text × V)
  unfolding lookup put
  put_new k v m = elim (lookup k m) [ none ↦ put k v m | some w ↦ m ]

  put_new-fresh :
      (k : Text) (v : V) (m : List (Text × V)) → lookup k m ≡ none → put_new k v m ≡ put k v m
  unfolding put_new
  put_new-fresh k v m e = rw (e, put_new) refl

  put_new-old : (k : Text) (v u : V) (m : List (Text × V)) → lookup k m ≡ some u → put_new k v m ≡ m
  unfolding put_new
  put_new-old k v u m e = rw (e, put_new) refl

  pub put_new-kept :
      (k j : Text) (v w : V) (m : List (Text × V))
      → lookup j m ≡ some w
      → lookup j (put_new k v m) ≡ some w
  put_new-kept k j v w m at = elim (Option-cases (lookup k m)) [
    | inl e ↦
        rw (put_new-fresh k v m e, lookup-put k j v m)
          (elim (Bool-cases (k == j)) [
            | inl s ↦ let same = (==_iff k j).0 s in cc
            | inr s ↦ rw s at
          ])
    | inr (u, e) ↦ rw (put_new-old k v u m e) at
  ]

  pub put_new-absent :
      (k : Text) (v : V) (m : List (Text × V))
      → lookup k m ≡ none
      → lookup k (put_new k v m) ≡ some v
  put_new-absent k v m e = rw (put_new-fresh k v m e, lookup-put k k v m, ==_refl k) refl

  put-origin :
      (k j : Text) (v w : V) (m : List (Text × V))
      → lookup j (put k v m) ≡ some w
      → (lookup j m ≡ some w) ⊎ ((k ≡ j) × (v ≡ w))
  put-origin k j v w m at =
      let at' = λ (b : Bool) (s : (k == j) ≡ b).
        subst (λ b. (if b then some v else lookup j m) ≡ some w) s
          (sym (lookup-put k j v m) ∙ at) in
      elim (Bool-cases (k == j)) [
        | inl s ↦ let same = at' true s in inr ((==_iff k j).0 s, cc)
        | inr s ↦ inl (at' false s)
      ]

  pub put_new-origin :
      (k j : Text) (v w : V) (m : List (Text × V))
      → lookup j (put_new k v m) ≡ some w
      → (lookup j m ≡ some w) ⊎ ((lookup k m ≡ none) × (k ≡ j) × (v ≡ w))
  put_new-origin k j v w m at = elim (Option-cases (lookup k m)) [
    | inl e ↦ elim (put-origin k j v w m (ap (lookup j) (sym (put_new-fresh k v m e)) ∙ at)) [
      | inl old ↦ inl old
      | inr (named, same) ↦ inr (e, named, same)
    ]
    | inr (u, e) ↦ inl (ap (lookup j) (sym (put_new-old k v u m e)) ∙ at)
  ]

  -- `for k, v := range n { m[k] = v }`; the keys of `n` differ, so their order is free.
  unfoldable pub put_all : List (Text × V) → List (Text × V) → List (Text × V)
  unfolding put
  put_all [] m = m
  put_all ((k, v) ∷ n) m = put k v (put_all n m)

  -- The first of two that is there.
  abbrev pub or_else : Option V → Option V → Option V
  or_else none b = b
  or_else (some a) b = some a

  pub lookup-put_all :
      (j : Text) (n m : List (Text × V))
      → lookup j (put_all n m) ≡ or_else (lookup j n) (lookup j m)
  unfolding lookup put_all
  lookup-put_all j [] m = refl
  lookup-put_all j ((k, v) ∷ n) m = elim (Bool-cases (k == j)) [
    | inl s ↦ rw (lookup-put k j v (put_all n m), s) refl
    | inr s ↦ rw (lookup-put k j v (put_all n m), s) (lookup-put_all j n m)
  ]

module _ {ℓ κ} {V : Type ℓ} (P : Text × V → Type κ) where
  pub without-All : (k : Text) (m : List (Text × V)) → All P m → All P (without k m)
  unfolding without
  without-All k [] h = h
  without-All k ((j, v) ∷ m) (p, h) = elim (Bool-cases (j == k)) [
    | inl e ↦ rw (e, without) (without-All k m h)
    | inr e ↦ rw (e, without) (p, without-All k m h)
  ]

  pub put-All : (k : Text) (v : V) (m : List (Text × V)) → P (k, v) → All P m → All P (put k v m)
  unfolding put
  put-All k v m p h = (p, without-All k m h)
