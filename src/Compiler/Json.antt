-- ===== src/Compiler/Json.antt =====
-- The values that the compiler hands to json.Marshal, and what it takes from the world.
use flokoa.Common.{ℤ, Bool, List, [], ◌∷◌, Option, Text}

-- `bytes` is a []byte, which json.Marshal writes as a string in base64. `decoded` is the value that
-- json.Unmarshal makes of a raw JSON text. Objects are Go maps, their keys in the order in which the
-- code sets them.
mutual
  pub data Json : Type 0 where
    bool : Bool → Json
    num : ℤ → Json
    str : Text → Json
    bytes : Text → Json
    decoded : Text → Json
    arr : Items → Json
    obj : Fields → Json

  pub data Items : Type 0 where
    nil : Items
    cons : Json → Items → Items

  pub data Fields : Type 0 where
    end : Fields
    field : Text → Json → Fields → Fields

abbrev pub items : List Json → Items
items [] = nil
items (v ∷ vs) = cons v (items vs)

abbrev pub texts : List Text → Json
texts ts = arr (strings ts)
  where
    strings : List Text → Items
    strings [] = nil
    strings (t ∷ rest) = cons (str t) (strings rest)

-- What the code calls outside of this repository: whether json.Unmarshal accepts a raw text;
-- json.Marshal, `none` for its error; `int64(d.Seconds())` of a duration in nanoseconds, which goes
-- through a float64; and the traceparent that telemetry.NewTraceparent draws for this call.
pub record Runtime : Type 0 where
  pub is_json : Text → Bool
  pub marshal : Json → Option Text
  pub seconds : ℤ → ℤ
  pub traceparent : Text
