-- ===== src/Tests/Hash.antt =====
-- The hashes on small maps.
use mathlib.Core.List.{Permᴰ}
use flokoa.Common.{
  ◌≡◌, refl, [], ◌∷◌, Text, codes, Distinct, Memᴰ-cons, Memᴰ-nil, ⊎_elim, ◌==◌, ==_iff, arith,
}
use flokoa.Hash.{Data, keys, lookup, config_map_data, secret_versions, accumulated, text_le}
use flokoa.Hash.Determined.{hashes-Perm}
use flokoa.Hash.Secrets.{PlainEntries}
use flokoa.Hash.Faithful.{accumulated-injective, config_map_data-moved}

-- A stand-in for SHA-256: the text itself.
abbrev id_hash : Text → Text
id_hash s = s

abbrev a_version : Text × Text
a_version = (codes "a", codes "1")

abbrev b_version : Text × Text
b_version = (codes "b", codes "2")

abbrev two : Data
two = a_version ∷ b_version ∷ []

abbrev two_other_way : Data
two_other_way = b_version ∷ a_version ∷ []

two-Distinct : Distinct (keys two)
unfolding ◌==◌
two-Distinct = (
  λ m.
      ⊎_elim (λ e. let same = (==_iff (codes "a") (codes "b")).1 e in cc) (λ n. Memᴰ-nil n)
        ((Memᴰ-cons (codes "a") (codes "b") []).0 m),
  (Memᴰ-nil, tt),
)

hashes-Perm_example :
    (config_map_data id_hash two ≡ config_map_data id_hash two_other_way)
    × (secret_versions id_hash two ≡ secret_versions id_hash two_other_way)
hashes-Perm_example = hashes-Perm id_hash two two_other_way two-Distinct (Permᴰ.swap refl refl)

two-Plain : PlainEntries two
two-Plain = ground arith

two_other_way-Plain : PlainEntries two_other_way
two_other_way-Plain = ground arith

same_text : accumulated two ≡ accumulated two_other_way
unfolding accumulated text_le ◌==◌
same_text = refl

accumulated-injective_example : lookup two (codes "b") ≡ lookup two_other_way (codes "b")
accumulated-injective_example =
    accumulated-injective two two_other_way two-Plain two_other_way-Plain same_text (codes "b")

config_map_data-moved_example :
    config_map_data id_hash ((codes "a", codes "bc") ∷ [])
    ≡ config_map_data id_hash ((codes "ab", codes "c") ∷ [])
config_map_data-moved_example = config_map_data-moved id_hash (codes "a") (codes "b") (codes "c")
