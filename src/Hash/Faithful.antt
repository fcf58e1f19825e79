-- ===== src/Hash/Faithful.antt =====
-- Which maps the hashed texts tell apart.
use flokoa.Common.{
  ◌≡◌, refl, sym, ap, ◌∙◌, subst, ◌↔◌, ◌⊎◌, inl, inr, ⊎_elim, List, [], ◌∷◌, ◌++◌, map,
  append_assoc, append-nil, some, none, Text, ==_refl, ==_iff, Memᴰ, Memᴰ-cons, Memᴰ-nil, arith,
}
use flokoa.Hash.{
  Data, keys, lookup, value_at, or_empty, insert, sort_strings, accumulated, config_map_data,
  written, hash_of, data_entry,
}
use flokoa.Hash.Secrets.{PlainEntries, sorted_entries, accumulated-entries}

mem-insert : (k x : Text) (ys : List Text) → Memᴰ k (insert x ys) ↔ ((k ≡ x) ⊎ Memᴰ k ys)
unfolding insert
mem-insert k x [] = Memᴰ-cons k x []
mem-insert k x (y ∷ ys) = ground (
  arith,
  mem-insert k x ys,
  Memᴰ-cons k x (y ∷ ys),
  Memᴰ-cons k y ys,
  Memᴰ-cons k y (insert x ys),
)

mem-sort_strings : (k : Text) (xs : List Text) → Memᴰ k (sort_strings xs) ↔ Memᴰ k xs
unfolding sort_strings
mem-sort_strings k [] = (λ m. m, λ m. m)
mem-sort_strings k (x ∷ xs) =
    ground (arith, mem-insert k x (sort_strings xs), mem-sort_strings k xs, Memᴰ-cons k x xs)

lookup-cases :
    (m : Data) (key : Text)
    → (Memᴰ key (keys m) × (lookup m key ≡ some (value_at m key)))
      ⊎ ((Memᴰ key (keys m) → ⊥) × (lookup m key ≡ none))
lookup-cases [] key = inr (Memᴰ-nil, refl)
lookup-cases ((k, v) ∷ m) key =
    ground (arith, lookup-cases m key, ==_iff k key, Memᴰ-cons key k (keys m))

mem-entries :
    (m : Data) (ks : List Text) (key : Text)
    → Memᴰ key ks
    → Memᴰ {A = Text × Text} (key, value_at m key) (map (λ k. (k, value_at m k)) ks)
mem-entries m [] key h = absurd (Memᴰ-nil h)
mem-entries m (k ∷ ks) key h =
    ⊎_elim (λ e. Memᴰ.head (ap (λ x. (x, value_at m x)) e))
      (λ later. Memᴰ.tail (mem-entries m ks key later)) ((Memᴰ-cons key k ks).0 h)

entries-mem :
    (m : Data) (ks : List Text) (x : Text × Text)
    → Memᴰ x (map (λ k. (k, value_at m k)) ks)
    → Memᴰ x.0 ks × (x.1 ≡ value_at m x.0)
entries-mem m [] x h = absurd (Memᴰ-nil h)
entries-mem m (k ∷ ks) x h =
    ⊎_elim (λ e. (Memᴰ.head (ap (λ y. y.0) e), ap (λ y. y.1) e ∙ ap (λ y. value_at m y.0) (sym e)))
      (λ later. let (mem, same) = entries-mem m ks x later in (Memᴰ.tail mem, same))
      ((Memᴰ-cons x (k, value_at m k) (map (λ k. (k, value_at m k)) ks)).0 h)

carried :
    (m n : Data) (key : Text)
    → sorted_entries m ≡ sorted_entries n
    → Memᴰ key (keys m)
    → Memᴰ key (keys n) × (value_at m key ≡ value_at n key)
carried m n key e h =
    let met = mem-entries m (sort_strings (keys m)) key ((mem-sort_strings key (keys m)).1 h) in
    let (mem, same) =
      entries-mem n (sort_strings (keys n)) (key, value_at m key)
        (subst (λ xs. Memᴰ {A = Text × Text} (key, value_at m key) xs) e met) in
    ((mem-sort_strings key (keys n)).0 mem, same)

-- Where the names of the secrets have no colon and their versions no semicolon, two maps for which
-- `SecretVersions` hashes the same text have the same version, or none, under every name.
pub accumulated-injective :
    (m n : Data)
    → PlainEntries m
    → PlainEntries n
    → accumulated m ≡ accumulated n
    → (key : Text) → lookup m key ≡ lookup n key
accumulated-injective m n hm hn e key =
    let same = accumulated-entries m n hm hn e in
    elim (lookup-cases m key) [
      | inl (mem, found) ↦ elim (lookup-cases n key) [
        | inl (mem', found') ↦ found ∙ ap some (carried m n key same mem).1 ∙ sym found'
        | inr (missing, found') ↦ absurd (missing (carried m n key same mem).0)
      ]
      | inr (missing, found) ↦ elim (lookup-cases n key) [
        | inl (mem', found') ↦ absurd (missing (carried n m key (sym same) mem').0)
        | inr (missing', found') ↦ found ∙ sym found'
      ]
    ]

-- For a map with one entry, `ConfigMapData` does not change when the front of the value moves to the
-- end of the key.
pub config_map_data-moved :
    (sha256 : Text → Text) (k v w : Text)
    → config_map_data sha256 ((k, v ++ w) ∷ []) ≡ config_map_data sha256 ((k ++ v, w) ∷ [])
unfolding config_map_data
config_map_data-moved sha256 k v w =
    ap (hash_of sha256) (single k (v ++ w) ∙ sym (append_assoc k v w) ∙ sym (single (k ++ v) w))
  where
    single : (k v : Text) → written data_entry ((k, v) ∷ []) (k ∷ []) ≡ k ++ v
    single k v = ap (λ s. s ++ []) (ap (λ o. k ++ or_empty o) (found k v)) ∙ append-nil (k ++ v)
      where
        found : (k v : Text) → lookup ((k, v) ∷ []) k ≡ some v
        found k v = rw (==_refl k) refl
