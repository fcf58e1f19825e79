-- ===== src/Agent/Value/Labels.antt =====
-- The names of capability entries in a document.
use flokoa.Common.{
  ◌≡◌, refl, ap, ap₂, ◌∙◌, List, [], ◌∷◌, map, Option, none, some, Text, ◌==◌, Bool-cases, inl, inr,
  Bool, true, false, if◌then◌else◌,
}
use flokoa.Common.Dict.{lookup}
use flokoa.Agent.Value.{
  Value, null, bool, integer, decimal, float, fraction, text, list, object, Values, nil, cons,
  Entries, end, entry, Doc, values, items, Codec, and_then, canonical, canonical_values,
  canonical_entries, canonicalize, capability_entry, entries,
}

-- The name of an entry: the bare one, or the key of its object.
abbrev pub entry_label : Value → Text
entry_label (text t) = t
entry_label (object (entry k v m)) = k
entry_label _ = []

abbrev pub list_labels : Option Value → List Text
list_labels (some (list vs)) = map entry_label (items vs)
list_labels _ = []

and_then-some {ℓ κ} :
    {A : Type ℓ} {B : Type κ} (o : Option A) (f : A → Option B) (b : B)
    → and_then o f ≡ some b
    → (a : A) × (o ≡ some a) × (f a ≡ some b)
unfolding and_then
and_then-some none f b h = cc
and_then-some (some a) f b h = (a, refl, h)

pub some-injective {ℓ} : {A : Type ℓ} {a b : A} → some a ≡ some b → b ≡ a
some-injective h = cc

pub items-values : (vs : List Value) → items (values vs) ≡ vs
unfolding items values
items-values [] = refl
items-values (v ∷ vs) = ap (λ r. v ∷ r) (items-values vs)

pub entry_label-capability_entry :
    (name : Text) (config : Doc) → entry_label (capability_entry name config) ≡ name
unfolding capability_entry entries
entry_label-capability_entry name [] = refl
entry_label-capability_entry name (e ∷ config) = refl

module _ (c : Codec) where
  canonical_entries-label :
      (m n : Entries)
      → canonical_entries c m ≡ some n
      → entry_label (object n) ≡ entry_label (object m)
  unfolding canonical
  canonical_entries-label end n h = ap (λ m. entry_label (object m)) (some-injective h)
  canonical_entries-label (entry k v m) n h =
      let (w, _, h1) = and_then-some _ _ _ h in
      let (n', _, h2) = and_then-some _ _ _ h1 in
      ap (λ m. entry_label (object m)) (some-injective h2)

  decimal_when :
      (t : Text) (w : Value) (b : Bool)
      → (if b then some (decimal t) else none) ≡ some w
      → w ≡ decimal t
  decimal_when t w true h = some-injective h
  decimal_when t w false h = cc

  canonical-label : (v w : Value) → canonical c v ≡ some w → entry_label w ≡ entry_label v
  unfolding canonical
  canonical-label null w h = ap entry_label (some-injective h)
  canonical-label (bool b) w h = ap entry_label (some-injective h)
  canonical-label (integer n) w h = ap entry_label (some-injective h)
  canonical-label (float n) w h = ap entry_label (some-injective h)
  canonical-label (fraction t) w h = ap entry_label (some-injective h)
  canonical-label (text t) w h = ap entry_label (some-injective h)
  canonical-label (decimal t) w h = ap entry_label (decimal_when t w (c.is_number t) h)
  canonical-label (list vs) w h =
      let (ws, _, h1) = and_then-some _ _ _ h in ap entry_label (some-injective h1)
  canonical-label (object m) w h =
      let (n, named, h1) = and_then-some _ _ _ h in
      ap entry_label (some-injective h1) ∙ canonical_entries-label m n named

  canonical_values-labels :
      (vs ws : Values)
      → canonical_values c vs ≡ some ws
      → list_labels (some (list ws)) ≡ list_labels (some (list vs))
  unfolding canonical items
  canonical_values-labels nil ws h = ap (λ x. list_labels (some (list x))) (some-injective h)
  canonical_values-labels (cons v vs) ws h =
      let (w, one, h1) = and_then-some _ _ _ h in
      let (ws', rest, h2) = and_then-some _ _ _ h1 in
      ap (λ x. list_labels (some (list x))) (some-injective h2)
      ∙ ap₂ (λ a b. a ∷ b) (canonical-label v w one) (canonical_values-labels vs ws' rest)

  canonical-list_labels :
      (v w : Value) → canonical c v ≡ some w → list_labels (some w) ≡ list_labels (some v)
  unfolding canonical
  canonical-list_labels null w h = ap (λ x. list_labels (some x)) (some-injective h)
  canonical-list_labels (bool b) w h = ap (λ x. list_labels (some x)) (some-injective h)
  canonical-list_labels (integer n) w h = ap (λ x. list_labels (some x)) (some-injective h)
  canonical-list_labels (float n) w h = ap (λ x. list_labels (some x)) (some-injective h)
  canonical-list_labels (fraction t) w h = ap (λ x. list_labels (some x)) (some-injective h)
  canonical-list_labels (text t) w h = ap (λ x. list_labels (some x)) (some-injective h)
  canonical-list_labels (decimal t) w h =
      ap (λ x. list_labels (some x)) (decimal_when t w (c.is_number t) h)
  canonical-list_labels (object m) w h =
      let (n, _, h1) = and_then-some _ _ _ h in ap (λ x. list_labels (some x)) (some-injective h1)
  canonical-list_labels (list vs) w h =
      let (ws, each, h1) = and_then-some _ _ _ h in
      ap (λ x. list_labels (some x)) (some-injective h1) ∙ canonical_values-labels vs ws each

  pub canonicalize-labels :
      (key : Text) (doc doc' : Doc)
      → canonicalize c doc ≡ some doc'
      → list_labels (lookup key doc') ≡ list_labels (lookup key doc)
  unfolding canonicalize lookup
  canonicalize-labels key [] doc' h = ap (λ d. list_labels (lookup key d)) (some-injective h)
  canonicalize-labels key ((j, v) ∷ m) doc' h =
      let (w, one, h1) = and_then-some _ _ _ h in
      let (n, rest, h2) = and_then-some _ _ _ h1 in
      ap (λ d. list_labels (lookup key d)) (some-injective h2) ∙ elim (Bool-cases (j == key)) [
        | inl s ↦ rw s (canonical-list_labels v w one)
        | inr s ↦ rw s (canonicalize-labels key m n rest)
      ]
