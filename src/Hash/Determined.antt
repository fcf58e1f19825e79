-- ===== src/Hash/Determined.antt =====
-- The hashes and the order in which Go walks a map.
use mathlib.Core.List.{Permᴰ}
use mathlib.Core.List.Permᴰ
use flokoa.Common.{
  ◌≡◌, refl, sym, ap, ap₂, ◌∙◌, ⊎_elim, List, some, ◌++◌, [], ◌∷◌, Memᴰ, Memᴰ-cons, Distinct, subst,
  Text, ◌==◌, ==_iff, if◌then◌else◌, arith,
}
use flokoa.Hash.{
  Data, keys, lookup, written, sort_strings, config_map_data, secret_versions, accumulated,
  data_entry, or_empty, if_entries, secret_entry, hash_of,
}
use flokoa.Hash.Order.{sort_strings-Perm}

mem_Perm : {xs ys : List Text} {k : Text} → Permᴰ xs ys → Memᴰ k xs → Memᴰ k ys
mem_Perm Permᴰ.nil m = m
mem_Perm {k = k} (Permᴰ.cons {a} {b} {l₁} {l₂} e p) m =
    ⊎_elim (λ h. Memᴰ.head (h ∙ e)) (λ t. Memᴰ.tail (mem_Perm p t)) ((Memᴰ-cons k a l₁).0 m)
mem_Perm {k = k} (Permᴰ.swap {a} {b} {l = l} e e') m =
    ⊎_elim (λ h. Memᴰ.tail (Memᴰ.head (h ∙ e)))
      (λ t. ⊎_elim (λ h. Memᴰ.head (h ∙ e')) (λ r. Memᴰ.tail (Memᴰ.tail r)) ((Memᴰ-cons k b l).0 t))
      ((Memᴰ-cons k a (b ∷ l)).0 m)
mem_Perm (Permᴰ.trans p q) m = mem_Perm q (mem_Perm p m)

Distinct-swap : (a b : Text) (l : List Text) → Distinct (a ∷ b ∷ l) → Distinct (b ∷ a ∷ l)
Distinct-swap a b l (fresh, (fresh', d)) = (
  λ m. ⊎_elim (λ h. fresh (Memᴰ.head (sym h))) fresh' ((Memᴰ-cons b a l).0 m),
  ((λ m. fresh (Memᴰ.tail m)), d),
)

lookup-swap :
    (key : Text) (a b : Text × Text) (l : Data)
    → (a.0 ≡ b.0 → ⊥)
    → lookup (a ∷ b ∷ l) key ≡ lookup (b ∷ a ∷ l) key
lookup-swap key (k, v) (k', v') l ne = ground (arith, ==_iff k key, ==_iff k' key)

Distinct-Perm : {xs ys : List Text} → Permᴰ xs ys → Distinct xs → Distinct ys
Distinct-Perm Permᴰ.nil d = d
Distinct-Perm (Permᴰ.cons {l₁ = l₁} e p) (fresh, d) =
    (λ m. fresh (subst (λ x. Memᴰ x l₁) (sym e) (mem_Perm (Permᴰ.symm p) m)), Distinct-Perm p d)
Distinct-Perm (Permᴰ.swap {a} {b} {a'} {b'} {l} e e') d =
    subst Distinct (ap₂ (λ x y. x ∷ y ∷ l) e' e) (Distinct-swap a b l d)
Distinct-Perm (Permᴰ.trans p q) d = Distinct-Perm q (Distinct-Perm p d)

lookup-Perm :
    {m n : Data} (key : Text) → Permᴰ m n → Distinct (keys m) → lookup m key ≡ lookup n key
lookup-Perm key Permᴰ.nil d = refl
lookup-Perm key (Permᴰ.cons {a} {b} {l₁} {l₂} e p) (fresh, d) =
    ap (λ o. if a.0 == key then some a.1 else o) (lookup-Perm key p d)
    ∙ ap (λ x. lookup (x ∷ l₂) key) e
lookup-Perm key (Permᴰ.swap {a} {b} {a'} {b'} {l} e e') d =
    lookup-swap key a b l (λ same. d.0 (Memᴰ.head same)) ∙ ap₂ (λ x y. lookup (x ∷ y ∷ l) key) e' e
lookup-Perm key (Permᴰ.trans p q) d =
    lookup-Perm key p d ∙ lookup-Perm key q (Distinct-Perm (Permᴰ.map (λ x. x.0) p) d)

written-Perm :
    (entry : Text → Text → Text) (ks : List Text) {m n : Data}
    → Permᴰ m n
    → Distinct (keys m)
    → written entry m ks ≡ written entry n ks
unfolding written
written-Perm entry [] p d = refl
written-Perm entry (k ∷ ks) p d =
    ap₂ (λ v s. entry k v ++ s) (ap or_empty (lookup-Perm k p d)) (written-Perm entry ks p d)

if_entries-Perm : {m n : Data} (s t : Text) → Permᴰ m n → s ≡ t → if_entries m s ≡ if_entries n t
if_entries-Perm s t Permᴰ.nil e = refl
if_entries-Perm s t (Permᴰ.cons h p) e = e
if_entries-Perm s t (Permᴰ.swap h h') e = e
if_entries-Perm {m} {n} s t (Permᴰ.trans p q) e =
    if_entries-Perm s s p refl ∙ if_entries-Perm s t q e

sorted_written-Perm :
    (entry : Text → Text → Text) {m n : Data}
    → Permᴰ m n
    → Distinct (keys m)
    → written entry m (sort_strings (keys m)) ≡ written entry n (sort_strings (keys n))
sorted_written-Perm entry {m} {n} p d =
    ap (written entry m) (sort_strings-Perm (Permᴰ.map (λ x. x.0) p))
    ∙ written-Perm entry (sort_strings (keys n)) p d

-- Two walks of the same map, in whatever orders, give the same `ConfigMapData` and the same
-- `SecretVersions`; the keys of a map are distinct.
pub hashes-Perm :
    (sha256 : Text → Text) (m n : Data)
    → Distinct (keys m)
    → Permᴰ m n
    → (config_map_data sha256 m ≡ config_map_data sha256 n)
      × (secret_versions sha256 m ≡ secret_versions sha256 n)
unfolding config_map_data secret_versions accumulated
hashes-Perm sha256 m n d p = (
  if_entries-Perm _ _ p (ap (hash_of sha256) (sorted_written-Perm data_entry p d)),
  if_entries-Perm _ _ p (ap (hash_of sha256) (sorted_written-Perm secret_entry p d)),
)
