-- ===== src/A2a/Endpoints/Both.antt =====
-- The two forms of an agent's address.
use flokoa.Common.{
  ℕ, ◌≡◌, ◌≢◌, refl, sym, ap, true, false, [], ◌∷◌, ◌++◌, length, length-append, Text, ◌==◌, ==_iff,
  ==_refl, is_empty, arith, Bool-cases, inl, inr,
}
use flokoa.A2a.Endpoints.Trimmed.{
  IsAddress, Holds, address-ne-nil, with_path-IsAddress, trimmed_endpoint-Holds,
}
use flokoa.A2a.Endpoints.{has_suffix, trim_suffix, a2a_path, unique, endpoint_candidates}

longer : (t s : Text) → s ≢ [] → (t ++ s) ≢ t
longer t [] h e = h refl
longer t (c ∷ s) h e = absurd (omega (arith, ap length e, length-append t (c ∷ s)))

differ : (s t : Text) → s ≢ t → (s == t) ≡ false
differ s t h = ground (arith, ==_iff s t)

longer_front : (c : ℕ) (t s : Text) → (c ∷ (t ++ s)) ≢ s
longer_front c t s e = absurd (omega (arith, ap length e, length-append t s))

pub has_suffix-append : (t s : Text) → has_suffix (t ++ s) s ≡ true
unfolding has_suffix
has_suffix-append [] [] = refl
has_suffix-append [] (c ∷ s) = ground (arith, ==_refl (c ∷ s))
has_suffix-append (c ∷ t) s = ground (arith, has_suffix-append t s)

trim_suffix-append : (t s : Text) → s ≢ [] → trim_suffix (t ++ s) s ≡ t
unfolding trim_suffix
trim_suffix-append [] [] h = refl
trim_suffix-append [] (c ∷ s) h = ground (arith, ==_refl (c ∷ s))
trim_suffix-append (c ∷ t) s h =
    ground (arith, trim_suffix-append t s, differ (c ∷ (t ++ s)) s (longer_front c t s))

filled : (t : Text) → t ≢ [] → is_empty t ≡ false
filled [] h = absurd (h refl)
filled (c ∷ t) h = refl

unique_two : (a b : Text) → a ≢ [] → b ≢ [] → b ≢ a → unique [] (a ∷ b ∷ []) ≡ (a ∷ b ∷ [])
unfolding unique
unique_two a b ha hb h = rw (filled a ha, filled b hb, differ b a h)

append-ne-nil : (t s : Text) → s ≢ [] → (t ++ s) ≢ []
append-ne-nil [] s h e = h e
append-ne-nil (c ∷ t) s h e = cc

path-ne-nil : a2a_path ≢ []
path-ne-nil e = cc

suffix-ends : (t s : Text) → has_suffix t s ≡ true → (u : Text) × (t ≡ u ++ s)
unfolding has_suffix
suffix-ends [] [] h = ([], refl)
suffix-ends [] (c ∷ s) h = cc
suffix-ends (c ∷ t) s h = elim (Bool-cases ((c ∷ t) == s)) [
  | inl same ↦ ([], (==_iff (c ∷ t) s).0 same)
  | inr other ↦ let (u, e) = suffix-ends t s (ground arith) in (c ∷ u, ap (λ x. c ∷ x) e)
]

bare-has_suffix : (t s : Text) → ((u : Text) → t ≢ (u ++ s)) → has_suffix t s ≡ false
bare-has_suffix t s h = elim (Bool-cases (has_suffix t s)) [
  | inl e ↦ let (u, split) = suffix-ends t s e in absurd (h u split)
  | inr e ↦ e
]

-- Where both forms of an address without the path "/a2a" stand in endpoints with spaces around them
-- and slashes at their end, the candidates of either endpoint are the two forms, first the one that
-- stands in the endpoint.
pub endpoint_candidates-both :
    (address short long : Text)
    → IsAddress address
    → ((t : Text) → address ≢ (t ++ a2a_path))
    → Holds address short
    → Holds (address ++ a2a_path) long
    → (endpoint_candidates short ≡ (address ∷ (address ++ a2a_path) ∷ []))
      × (endpoint_candidates long ≡ ((address ++ a2a_path) ∷ address ∷ []))
unfolding endpoint_candidates
endpoint_candidates-both address short long good no_path in_short in_long =
    let filled_ = address-ne-nil address good in
    let bare = bare-has_suffix address a2a_path no_path in
    let both = append-ne-nil address a2a_path path-ne-nil in
    let apart = longer address a2a_path path-ne-nil in
    (
      rw (trimmed_endpoint-Holds address short good in_short, filled address filled_, bare)
          (unique_two address (address ++ a2a_path) filled_ both apart),
      rw
          (
            trimmed_endpoint-Holds (address ++ a2a_path) long (with_path-IsAddress address good)
                in_long,
            filled (address ++ a2a_path) both,
            has_suffix-append address a2a_path,
            trim_suffix-append address a2a_path path-ne-nil,
          )
          (unique_two (address ++ a2a_path) address both filled_ (λ same. apart (sym same))),
    )
