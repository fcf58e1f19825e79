-- ===== src/Hash/Secrets.antt =====
-- What the hashed texts tell of the maps.
use flokoa.Common.{
  ◌≡◌, refl, sym, ap, ◌∙◌, List, [], ◌∷◌, ◌++◌, map, append_assoc, All, Avoids, cut_injective, Text,
  codes, Bool-cases, inl, inr, ◌==◌,
}
use flokoa.Hash.{
  Data, keys, value_at, written, sort_strings, insert, text_le, accumulated, secret_entry,
}

-- The names of secrets have no colon and their versions no semicolon.
abbrev pub PlainEntries : Data → Type 0
PlainEntries = All (λ x. Avoids b':' x.0 × Avoids b';' x.1)

-- What the walk over the sorted names meets.
abbrev pub sorted_entries : Data → List (Text × Text)
sorted_entries m = map (λ k. (k, value_at m k)) (sort_strings (keys m))

entries_text : List (Text × Text) → Text
entries_text [] = []
entries_text ((k, v) ∷ xs) = secret_entry k v ++ entries_text xs

secret_entry-cut : (k v rest : Text) → (secret_entry k v ++ rest) ≡ (k ++ b':' ∷ (v ++ b';' ∷ rest))
secret_entry-cut k v rest =
    append_assoc k (codes ":" ++ (v ++ codes ";")) rest
    ∙ ap (λ s. k ++ b':' ∷ s) (append_assoc v (codes ";") rest)

entries_text-injective :
    (xs ys : List (Text × Text))
    → PlainEntries xs
    → PlainEntries ys
    → entries_text xs ≡ entries_text ys
    → xs ≡ ys
unfolding entries_text
entries_text-injective [] [] hx hy e = refl
entries_text-injective [] (([], v) ∷ ys) hx hy e = cc
entries_text-injective [] ((c ∷ k, v) ∷ ys) hx hy e = cc
entries_text-injective (([], v) ∷ xs) [] hx hy e = cc
entries_text-injective ((c ∷ k, v) ∷ xs) [] hx hy e = cc
entries_text-injective ((k, v) ∷ xs) ((k', v') ∷ ys) ((hk, hv), hx) ((hk', hv'), hy) e =
    let cut =
      sym (secret_entry-cut k v (entries_text xs)) ∙ e ∙ secret_entry-cut k' v' (entries_text ys) in
    let (same_k, rest) = cut_injective b':' k k' _ _ hk hk' cut in
    let (same_v, rest') = cut_injective b';' v v' (entries_text xs) (entries_text ys) hv hv' rest in
    let later = entries_text-injective xs ys hx hy rest' in λ i. (same_k i, same_v i) ∷ later i

written-entries :
    (m : Data) (ks : List Text)
    → written secret_entry m ks ≡ entries_text (map (λ k. (k, value_at m k)) ks)
unfolding written entries_text
written-entries m [] = refl
written-entries m (k ∷ ks) = ap (λ s. secret_entry k (value_at m k) ++ s) (written-entries m ks)

insert-All : (P : Text → Type 0) (x : Text) (ys : List Text) → P x → All P ys → All P (insert x ys)
unfolding insert
insert-All P x [] p h = (p, h)
insert-All P x (y ∷ ys) p (q, h) = elim (Bool-cases (text_le x y)) [
  | inl e ↦ rw (e, insert) (p, (q, h))
  | inr e ↦ rw (e, insert) (q, insert-All P x ys p h)
]

sort_strings-All : (P : Text → Type 0) (xs : List Text) → All P xs → All P (sort_strings xs)
unfolding sort_strings
sort_strings-All P [] h = h
sort_strings-All P (x ∷ xs) (p, h) = insert-All P x (sort_strings xs) p (sort_strings-All P xs h)

keys-Avoids : (m : Data) → PlainEntries m → All (Avoids b':') (keys m)
keys-Avoids [] h = tt
keys-Avoids ((k, v) ∷ m) ((hk, hv), h) = (hk, keys-Avoids m h)

value_at-Avoids : (m : Data) (key : Text) → PlainEntries m → Avoids b';' (value_at m key)
value_at-Avoids [] key h = tt
value_at-Avoids ((k, v) ∷ m) key ((hk, hv), h) = elim (Bool-cases (k == key)) [
  | inl e ↦ rw e hv
  | inr e ↦ rw e (value_at-Avoids m key h)
]

entries-Plain :
    (m : Data) (ks : List Text)
    → PlainEntries m
    → All (Avoids b':') ks
    → PlainEntries (map (λ k. (k, value_at m k)) ks)
entries-Plain m [] h hk = tt
entries-Plain m (k ∷ ks) h (p, hk) = ((p, value_at-Avoids m k h), entries-Plain m ks h hk)

sorted_entries-Plain : (m : Data) → PlainEntries m → PlainEntries (sorted_entries m)
sorted_entries-Plain m h =
    entries-Plain m (sort_strings (keys m)) h
      (sort_strings-All (Avoids b':') (keys m) (keys-Avoids m h))

pub accumulated-entries :
    (m n : Data)
    → PlainEntries m
    → PlainEntries n
    → accumulated m ≡ accumulated n
    → sorted_entries m ≡ sorted_entries n
unfolding accumulated
accumulated-entries m n hm hn e =
    entries_text-injective (sorted_entries m) (sorted_entries n) (sorted_entries-Plain m hm)
      (sorted_entries-Plain n hn)
      (sym (written-entries m (sort_strings (keys m)))
        ∙ e
        ∙ written-entries n (sort_strings (keys n)))
