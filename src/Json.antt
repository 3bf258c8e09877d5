-- ===== src/Json.antt =====
-- Decoded JSON documents: what `json.loads` gives, as one data type. A float is kept by the text
-- that Python shows for it. An object is a dict: its fields stand in order of insertion.
pub mod Laws
use x402_conformance.Prelude.{
  String, Bool, true, false, not, ◌||◌, Option, none, some, List, [], ◌∷◌, ◌==◌, string_eq,
  if◌then◌else◌,
}
use x402_conformance.Prelude.Int.{ℤ, is_nat}

mutual
  pub data Json : Type 0 where
    null : Json
    bool : Bool → Json
    int : ℤ → Json
    float : String → Json
    str : String → Json
    arr : Items → Json
    obj : Fields → Json

  pub data Items : Type 0 where
    nil : Items
    cons : Json → Items → Items

  pub data Fields : Type 0 where
    end : Fields
    field : String → Json → Fields → Fields

-- d.get(key)
unfoldable pub get : Fields → String → Option Json
get end key = none
get (field k v fs) key = let rest = get fs key in if k == key then some v else rest

abbrev pub items : Items → List Json
items nil = []
items (cons v vs) = v ∷ items vs

-- isinstance(value, list), with the list
abbrev pub as_list : Option Json → Option (List Json)
as_list (some (Json.arr vs)) = some (items vs)
as_list _ = none

-- isinstance(value, str), with the text
abbrev pub as_str : Option Json → Option String
as_str (some (Json.str s)) = some s
as_str _ = none

-- isinstance(value, dict), with the fields
abbrev pub as_dict : Option Json → Option Fields
as_dict (some (Json.obj fs)) = some fs
as_dict _ = none

-- entry.get(key) == text
abbrev pub is_text : Option Json → String → Bool
is_text (some (Json.str s)) t = s == t
is_text _ t = false

-- d.get(key, default) == text, for a default that is the text itself or another one
abbrev pub is_text_or : Option Json → Bool → String → Bool
is_text_or none default_fits t = default_fits
is_text_or (some v) default_fits t = is_text (some v) t

-- isinstance(value, dict), or else the empty dict
abbrev pub dict_or_empty : Option Json → Fields
dict_or_empty (some (Json.obj fs)) = fs
dict_or_empty _ = Fields.end

-- bool(value). Python shows the two zeros of type float as `0.0` and `-0.0`.
abbrev pub is_truthy : Option Json → Bool
is_truthy none = false
is_truthy (some Json.null) = false
is_truthy (some (Json.bool b)) = b
is_truthy (some (Json.int z)) = not (is_nat z 0)
is_truthy (some (Json.float s)) = not (s == "0.0" || s == "-0.0")
is_truthy (some (Json.str s)) = not (s == "")
is_truthy (some (Json.arr Items.nil)) = false
is_truthy (some (Json.arr (Items.cons v vs))) = true
is_truthy (some (Json.obj Fields.end)) = false
is_truthy (some (Json.obj (Fields.field k v fs))) = true

-- d[key] = value: in place under a key that is there, or else at the end
unfoldable pub set_field : Fields → String → Json → Fields
set_field end key value = field key value end
set_field (field k v fs) key value =
    let rest = set_field fs key value in if k == key then field k value fs else field k v rest
