-- ===== src/Models/Supported.antt =====
-- models.py: the answer of a facilitator to GET /supported.
use x402_conformance.Prelude.{Option, none, some}
use x402_conformance.Json.{Json, Items, Fields, get}
use x402_conformance.Models.{◌>>=◌, get_field}
use x402_conformance.Models.Challenge.{strict_int, filled_str}

-- SupportedKind, as `model_dump(by_alias=True)` writes it. Fields beyond the model's, which it keeps
-- and no check reads, are left out.
unfoldable pub kind_of_json : Json → Option Json
unfolding get_field get
kind_of_json (Json.obj fs) = do
  version ← strict_int (get_field fs "x402Version" "x402_version")
  scheme ← filled_str (get fs "scheme")
  network ← filled_str (get fs "network")
  some (
      Json.obj (
        Fields.field "x402Version" (Json.int version) (
          Fields.field "scheme" (Json.str scheme)
            (Fields.field "network" (Json.str network) Fields.end))))
kind_of_json _ = none

unfoldable pub kinds_of_items : Items → Option Items
unfolding kind_of_json
kinds_of_items Items.nil = some Items.nil
kinds_of_items (Items.cons v vs) = do
  kind ← kind_of_json v
  kinds ← kinds_of_items vs
  some (Items.cons kind kinds)

abbrev pub kinds_of : Option Json → Option Json
kinds_of (some (Json.arr vs)) = do kinds ← kinds_of_items vs; some (Json.arr kinds)
kinds_of _ = none

abbrev strs_of_items : Items → Option Items
strs_of_items Items.nil = some Items.nil
strs_of_items (Items.cons (Json.str s) vs) = do
  rest ← strs_of_items vs
  some (Items.cons (Json.str s) rest)
strs_of_items (Items.cons _ vs) = none

-- `list[str]`
abbrev strs_of : Option Json → Option Json
strs_of (some (Json.arr vs)) = do strs ← strs_of_items vs; some (Json.arr strs)
strs_of _ = none

-- `dict[str, list[str]]`
abbrev signers_of_fields : Fields → Option Fields
signers_of_fields Fields.end = some Fields.end
signers_of_fields (Fields.field k v fs) = do
  strs ← strs_of (some v)
  rest ← signers_of_fields fs
  some (Fields.field k strs rest)

abbrev signers_of : Option Json → Option Json
signers_of (some (Json.obj fs)) = do signers ← signers_of_fields fs; some (Json.obj signers)
signers_of _ = none

-- `SupportedResponse.model_validate(body).model_dump(by_alias=True)`
unfoldable pub supported_of_json : Json → Option Fields
unfolding kinds_of_items get
supported_of_json (Json.obj fs) = do
  kinds ← kinds_of (get fs "kinds")
  extensions ← strs_of (get fs "extensions")
  signers ← signers_of (get fs "signers")
  some (
      Fields.field "kinds" kinds
        (Fields.field "extensions" extensions (Fields.field "signers" signers Fields.end)))
supported_of_json _ = none
