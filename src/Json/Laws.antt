-- ===== src/Json/Laws.antt =====
-- Assignment to a key of a dict.
use x402_conformance.Prelude.{
  String, ◌≡◌, ◌≢◌, ◌↔◌, true, Option, none, some, string_eq, arith, beq_refl,
}
use x402_conformance.Json.{Json, Fields, get, set_field, is_text}

-- A key reads what was assigned to it.
pub get-set_field :
    (fs : Fields) (key : String) (value : Json) → get (set_field fs key value) key ≡ some value
unfolding get set_field
get-set_field Fields.end key value = ground (arith, beq_refl key)
get-set_field (Fields.field k v fs) key value = ground (arith, get-set_field fs key value)

-- Assignment keeps the other keys.
pub get-set_field_other :
    (fs : Fields) (key other : String) (value : Json)
    → key ≢ other
    → get (set_field fs key value) other ≡ get fs other
unfolding get set_field
get-set_field_other Fields.end key other value h = ground (arith, string_eq.beq_iff key other)
get-set_field_other (Fields.field k v fs) key other value h = ground (
  arith,
  string_eq.beq_iff k key,
  string_eq.beq_iff k other,
  get-set_field_other fs key other value h,
)

-- `value == text` holds of that text alone.
pub is_text_iff : (o : Option Json) (t : String) → (is_text o t ≡ true) ↔ (o ≡ some (Json.str t))
is_text_iff none t = ground arith
is_text_iff (some Json.null) t = ground arith
is_text_iff (some (Json.bool b)) t = ground arith
is_text_iff (some (Json.int z)) t = ground arith
is_text_iff (some (Json.float s)) t = ground arith
is_text_iff (some (Json.str s)) t = ground (arith, string_eq.beq_iff s t)
is_text_iff (some (Json.arr vs)) t = ground arith
is_text_iff (some (Json.obj fs)) t = ground arith
