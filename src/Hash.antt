-- ===== src/Hash.antt =====
-- The hashes for change detection (operator/internal/domain/hash/hash.go). SHA-256 in hexadecimal is
-- a parameter.
pub mod Order
pub mod Determined
pub mod Secrets
pub mod Faithful
use flokoa.Common.{
  take, List, [], ◌∷◌, ◌++◌, map, Bool, true, false, ◌&&◌, ◌||◌, Option, none, some, Text, codes,
  ◌==◌, ltb, same_code, if◌then◌else◌, ℕ, zero, suc,
}

-- A `map[string]string`, its entries in the order in which the code meets them.
abbrev pub Data : Type 0
Data = List (Text × Text)

abbrev pub keys : Data → List Text
keys m = map (λ x. x.0) m

abbrev pub lookup : Data → Text → Option Text
lookup [] key = none
lookup ((k, v) ∷ m) key = if k == key then some v else lookup m key

abbrev or_empty : Option Text → Text
or_empty none = []
or_empty (some v) = v

-- `m[key]`
abbrev pub value_at : Data → Text → Text
value_at m key = or_empty (lookup m key)

-- The order of strings. The order of the code points is that of the bytes in UTF-8.
unfoldable pub text_le : Text → Text → Bool
text_le [] t = true
text_le (x ∷ s) [] = false
text_le (x ∷ s) (y ∷ t) = ltb x y || (same_code x y && text_le s t)

unfoldable pub insert : Text → List Text → List Text
insert x [] = x ∷ []
insert x (y ∷ ys) = let rest = insert x ys in if text_le x y then x ∷ y ∷ ys else y ∷ rest

-- sort.Strings
unfoldable pub sort_strings : List Text → List Text
unfolding insert text_le
sort_strings [] = []
sort_strings (x ∷ xs) = insert x (sort_strings xs)

-- The loop over the sorted keys; `entry` is what one round writes.
unfoldable pub written : (Text → Text → Text) → Data → List Text → Text
written entry m [] = []
written entry m (k ∷ ks) = entry k (value_at m k) ++ written entry m ks

-- `[:16]` of a hexadecimal string, which has 64 characters.
abbrev pub hash_of : (Text → Text) → Text → Text
hash_of sha256 s = take 16 (sha256 s)

abbrev pub data_entry : Text → Text → Text
data_entry k v = k ++ v

abbrev if_entries : Data → Text → Text
if_entries [] s = []
if_entries (x ∷ m) s = s

unfoldable pub config_map_data : (Text → Text) → Data → Text
unfolding written sort_strings
config_map_data sha256 m =
    if_entries m (hash_of sha256 (written data_entry m (sort_strings (keys m))))

abbrev pub secret_entry : Text → Text → Text
secret_entry name version = name ++ (codes ":" ++ (version ++ codes ";"))

-- The text that SecretVersions hashes.
unfoldable pub accumulated : Data → Text
unfolding written sort_strings
accumulated versions = written secret_entry versions (sort_strings (keys versions))

unfoldable pub secret_versions : (Text → Text) → Data → Text
unfolding accumulated
secret_versions sha256 versions = if_entries versions (hash_of sha256 (accumulated versions))
