-- ===== src/Json.antt =====
-- Decoded JSON. An integer literal is its integer; a literal with a fraction or an exponent is a
-- decimal `m * 10 ^ e`. The keys of an object are those that the decoder leaves, each once.
-- A text that does not decode is `none` where a document is expected.
use cpa_plugin_reset_priorit.Base.{
  if◌then◌else◌, Str, str_eq, ℤ, str_eq_iff, ◌≡◌, refl, Bool, Option, none, some, arith,
}

pub data Number : Type 0 where
  integer : ℤ → Number
  decimal : (mantissa exponent : ℤ) → Number

mutual
  pub data Json : Type 0 where
    null : Json
    boolean : Bool → Json
    number : Number → Json
    string : Str → Json
    array : Items → Json
    object : Fields → Json

  pub data Items : Type 0 where
    nil : Items
    item : Json → Items → Items

  pub data Fields : Type 0 where
    end : Fields
    field : Str → Json → Fields → Fields

-- `obj[key]`, and `obj[key] = v`.
unfoldable pub get : Str → Fields → Option Json
get k end = none
get k (field j v rest) = if str_eq j k then some v else get k rest

unfoldable pub put : Str → Json → Fields → Fields
put k v end = field k v end
put k v (field j w rest) = if str_eq j k then field k v rest else field j w (put k v rest)

-- A document as `map[string]any`: anything but an object fails, or leaves the map nil.
unfoldable pub root_object : Option Json → Option Fields
root_object none = none
root_object (some null) = none
root_object (some (boolean _)) = none
root_object (some (number _)) = none
root_object (some (string _)) = none
root_object (some (array _)) = none
root_object (some (object fs)) = some fs

-- `asObject`
unfoldable pub as_object : Option Json → Option Fields
as_object none = none
as_object (some null) = none
as_object (some (boolean _)) = none
as_object (some (number _)) = none
as_object (some (string _)) = none
as_object (some (array _)) = none
as_object (some (object fs)) = some fs

pub get-put :
    (k j : Str) (v : Json) (fs : Fields)
    → get j (put k v fs) ≡ (if str_eq k j then some v else get j fs)
unfolding get put
get-put k j v end = refl
get-put k j v (field i w rest) =
    ground (arith, str_eq_iff k j, str_eq_iff i k, str_eq_iff i j, get-put k j v rest)
