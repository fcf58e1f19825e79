-- ===== src/Agent/Value.antt =====
-- The documents of operator/internal/app/agent/compiler: a Go `map[string]any` and its values.
pub mod Labels
use flokoa.Common.{ℤ, Bool, List, [], ◌∷◌, Option, none, some, Text, map, if◌then◌else◌}

-- The numbers are those of the typed fields (`integer`), json.Number (`decimal`) and float64 (`float`
-- where it is whole, else `fraction` with its text).
mutual
  pub data Value : Type 0 where
    null : Value
    bool : Bool → Value
    integer : ℤ → Value
    decimal : Text → Value
    float : ℤ → Value
    fraction : Text → Value
    text : Text → Value
    list : Values → Value
    object : Entries → Value

  pub data Values : Type 0 where
    nil : Values
    cons : Value → Values → Values

  pub data Entries : Type 0 where
    end : Entries
    entry : Text → Value → Entries → Entries

abbrev pub Doc : Type 0
Doc = List (Text × Value)

unfoldable pub values : List Value → Values
values [] = nil
values (v ∷ vs) = cons v (values vs)

unfoldable pub items : Values → List Value
items nil = []
items (cons v vs) = v ∷ items vs

unfoldable pub entries : Doc → Entries
entries [] = end
entries ((k, v) ∷ m) = entry k v (entries m)

unfoldable pub fields : Entries → Doc
fields end = []
fields (entry k v m) = (k, v) ∷ fields m

abbrev pub texts : List Text → Value
texts ts = list (values (map (λ t. text t) ts))

-- capabilityEntry of operator/internal/app/agent/compiler/merge.go.
unfoldable pub capability_entry : Text → Doc → Value
unfolding entries
capability_entry name [] = text name
capability_entry name (e ∷ config) = object (entries ((name, object (entries (e ∷ config))) ∷ []))

-- What the code calls of encoding/json and sigs.k8s.io/yaml: the object that Unmarshal makes of a raw
-- text, `none` for its error (no raw text is `null`, since the API server makes a nil pointer of
-- that); whether a text is a number of JSON; and how Marshal writes numbers. `exceeds` compares a
-- float64 made of an integer with one that is not whole.
pub record Codec : Type 0 where
  pub json_object : Text → Option Doc
  pub yaml_object : Text → Option Doc
  pub is_number : Text → Bool
  pub write_integer : ℤ → Text
  pub write_fraction : Text → Text
  pub exceeds : ℤ → Text → Bool

-- The rest of a computation on the value of one that may fail.
unfoldable pub and_then {ℓ κ} : {A : Type ℓ} {B : Type κ} → Option A → (A → Option B) → Option B
and_then none f = none
and_then (some a) f = f a

-- The round trip of `canonicalize` through json.Marshal and a decoder that keeps json.Number. It
-- fails on a json.Number that is no number.
unfoldable mutual
  pub canonical : Codec → Value → Option Value
  canonical c null = some null
  canonical c (bool b) = some (bool b)
  canonical c (integer n) = some (decimal (c.write_integer n))
  canonical c (decimal t) = if c.is_number t then some (decimal t) else none
  canonical c (float n) = some (decimal (c.write_integer n))
  canonical c (fraction t) = some (decimal (c.write_fraction t))
  canonical c (text t) = some (text t)
  canonical c (list vs) = and_then (canonical_values c vs) (λ ws. some (list ws))
  canonical c (object m) = and_then (canonical_entries c m) (λ n. some (object n))

  pub canonical_values : Codec → Values → Option Values
  canonical_values c nil = some nil
  canonical_values c (cons v vs) =
      and_then (canonical c v) (λ w. and_then (canonical_values c vs) (λ ws. some (cons w ws)))

  pub canonical_entries : Codec → Entries → Option Entries
  canonical_entries c end = some end
  canonical_entries c (entry k v m) =
      and_then (canonical c v) (λ w. and_then (canonical_entries c m) (λ n. some (entry k w n)))

unfoldable pub canonicalize : Codec → Doc → Option Doc
canonicalize c [] = some []
canonicalize c ((k, v) ∷ m) =
    and_then (canonical c v) (λ w. and_then (canonicalize c m) (λ n. some ((k, w) ∷ n)))
