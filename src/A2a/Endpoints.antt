-- ===== src/A2a/Endpoints.antt =====
-- endpointCandidates of operator/plugins/a2a/plugin/plugin.go.
pub mod Trimmed
pub mod Both
use flokoa.Common.{
  ℕ, Bool, ◌||◌, List, [], ◌∷◌, ◌++◌, Text, codes, ◌==◌, is_empty, same_code, contains, trim_right,
  trim_space, if◌then◌else◌,
}

-- strings.HasSuffix and strings.TrimSuffix, by the cut `rest ++ suffix` of the text.
unfoldable pub has_suffix : Text → Text → Bool
unfolding ◌==◌
has_suffix [] suffix = is_empty suffix
has_suffix (c ∷ s) suffix = (c ∷ s) == suffix || has_suffix s suffix

unfoldable pub trim_suffix : Text → Text → Text
unfolding ◌==◌
trim_suffix [] suffix = []
trim_suffix (c ∷ s) suffix =
    let rest = trim_suffix s suffix in if (c ∷ s) == suffix then [] else c ∷ rest

abbrev pub a2a_path : Text
a2a_path = codes "/a2a"

-- The loop that leaves out repeated and empty candidates; `seen` holds the keys of the map.
unfoldable pub unique : List Text → List Text → List Text
unfolding contains
unique seen [] = []
unique seen (c ∷ cs) =
    let rest = unique seen cs in
    let kept = c ∷ unique (c ∷ seen) cs in if contains c seen || is_empty c then rest else kept

abbrev pub is_slash : ℕ → Bool
is_slash c = same_code c b'/'

abbrev pub both_forms : Text → List Text
both_forms trimmed =
    trimmed
    ∷ (if has_suffix trimmed a2a_path then trim_suffix trimmed a2a_path else trimmed ++ a2a_path)
    ∷ []

abbrev pub trimmed_endpoint : Text → Text
trimmed_endpoint endpoint = trim_right is_slash (trim_space endpoint)

unfoldable pub endpoint_candidates : Text → List Text
endpoint_candidates endpoint =
    if is_empty (trimmed_endpoint endpoint)
    then endpoint ∷ []
    else unique [] (both_forms (trimmed_endpoint endpoint))
