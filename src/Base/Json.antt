-- ===== src/Base/Json.antt =====
-- JSON values as Python holds them.
use agentic_coding_stack.Prelude.{
  String, ◌≡◌, refl, Bool, List, [], ◌∷◌, Option, none, some, arith, str_eq, eq_iff, if◌then◌else◌,
}
use agentic_coding_stack.Base.Number.{ℤ, Float}

mutual
  pub data Json : Type 0 where
    null : Json
    bool : Bool → Json
    int : ℤ → Json
    float : Float → Json
    str : String → Json
    arr : Items → Json
    obj : Fields → Json

  pub data Items : Type 0 where
    nil : Items
    cons : Json → Items → Items

  -- A dict, in insertion order.
  pub data Fields : Type 0 where
    end : Fields
    field : String → Json → Fields → Fields

-- `d.get(key)`
abbrev pub get : Fields → String → Option Json
get end k = none
get (field j v r) k = if str_eq j k then some v else get r k

-- `d[key] = value`
abbrev pub put : Fields → String → Json → Fields
put end k v = field k v end
put (field j w r) k v = if str_eq j k then field j v r else field j w (put r k v)

pub get-put :
    (d : Fields) (k j : String) (v : Json)
    → get (put d k v) j ≡ (if str_eq k j then some v else get d j)
get-put end k j v = refl
get-put (field i w r) k j v = ground (arith, eq_iff k j, eq_iff i k, eq_iff i j, get-put r k j v)

-- A list of texts as a JSON array.
abbrev pub strs : List String → Items
strs [] = nil
strs (s ∷ ss) = cons (str s) (strs ss)
