-- ===== src/Models/Challenge.antt =====
-- models.py: the strict schema of the decoded PAYMENT-REQUIRED header. An int is a finite float.
use x402_conformance.Prelude.{String, Bool, Option, none, some, List, [], ◌∷◌, ◌==◌, string_eq, not}
use x402_conformance.Prelude.Int.{ℤ, is_nonpositive}
use x402_conformance.Json.{Json, Items, Fields, get}
use x402_conformance.Models.{◌>>=◌, check, get_field, strict_str, optional_str, optional_dict}

pub record ResourceInfo : Type 0 where
  pub url : String
  pub description : Option String
  pub mime_type : Option String
  pub service_name : Option String
  pub tags : Option (List String)
  pub icon_url : Option String

pub record PaymentRequirements : Type 0 where
  pub scheme : String
  pub network : String
  pub amount : String
  pub asset : String
  pub pay_to : String
  pub max_timeout_seconds : Json

pub record PaymentRequired : Type 0 where
  pub x402_version : ℤ
  pub error : Option String
  pub resource : ResourceInfo
  pub accepts : List PaymentRequirements

-- `Annotated[str, Field(min_length=1)]`
abbrev pub filled_str : Option Json → Option String
filled_str o = do s ← strict_str o; _ ← check (not (s == "")); some s

abbrev pub strict_int : Option Json → Option ℤ
strict_int (some (Json.int z)) = some z
strict_int _ = none

abbrev all_str : Items → Option (List String)
all_str Items.nil = some []
all_str (Items.cons (Json.str s) vs) = do rest ← all_str vs; some (s ∷ rest)
all_str (Items.cons _ vs) = none

-- `list[str] | None`
abbrev optional_strs : Option Json → Option (Option (List String))
optional_strs none = some none
optional_strs (some Json.null) = some none
optional_strs (some (Json.arr vs)) = do tags ← all_str vs; some (some tags)
optional_strs _ = none

unfoldable pub resource_of_json : Option Json → Option ResourceInfo
unfolding get_field get
resource_of_json (some (Json.obj fs)) = do
  url ← filled_str (get fs "url")
  description ← optional_str (get fs "description")
  mime_type ← optional_str (get_field fs "mimeType" "mime_type")
  service_name ← optional_str (get_field fs "serviceName" "service_name")
  tags ← optional_strs (get fs "tags")
  icon_url ← optional_str (get_field fs "iconUrl" "icon_url")
  some (record {
    url = url;
    description = description;
    mime_type = mime_type;
    service_name = service_name;
    tags = tags;
    icon_url = icon_url;
  })
resource_of_json _ = none

-- `positive` tells of a float, by the text that Python shows for it, that it is finite and above 0.
module _ (positive : String → Bool) where
  -- `Annotated[FiniteFloat, Field(gt=0)]`
  abbrev positive_number : Option Json → Option Json
  positive_number (some (Json.int z)) = do _ ← check (not (is_nonpositive z)); some (Json.int z)
  positive_number (some (Json.float s)) = do _ ← check (positive s); some (Json.float s)
  positive_number _ = none

  unfoldable pub requirements_of_json : Json → Option PaymentRequirements
  unfolding get_field get
  requirements_of_json (Json.obj fs) = do
    scheme ← filled_str (get fs "scheme")
    network ← filled_str (get fs "network")
    amount ← filled_str (get fs "amount")
    asset ← filled_str (get fs "asset")
    pay_to ← filled_str (get_field fs "payTo" "pay_to")
    timeout ← positive_number (get_field fs "maxTimeoutSeconds" "max_timeout_seconds")
    _ ← optional_dict (get fs "extra")
    some (record {
      scheme = scheme;
      network = network;
      amount = amount;
      asset = asset;
      pay_to = pay_to;
      max_timeout_seconds = timeout;
    })
  requirements_of_json _ = none

  unfoldable pub accepts_of_items : Items → Option (List PaymentRequirements)
  unfolding requirements_of_json
  accepts_of_items Items.nil = some []
  accepts_of_items (Items.cons v vs) = do
    r ← requirements_of_json v
    rs ← accepts_of_items vs
    some (r ∷ rs)

  abbrev accepts_of_json : Option Json → Option (List PaymentRequirements)
  accepts_of_json (some (Json.arr vs)) = accepts_of_items vs
  accepts_of_json _ = none

  -- `PaymentRequired.model_validate`; `none` is the ValidationError
  unfoldable pub payment_required_of_fields : Fields → Option PaymentRequired
  unfolding get_field get resource_of_json accepts_of_items
  payment_required_of_fields fs = do
    version ← strict_int (get_field fs "x402Version" "x402_version")
    error ← optional_str (get fs "error")
    resource ← resource_of_json (get fs "resource")
    accepts ← accepts_of_json (get fs "accepts")
    _ ← optional_dict (get fs "extensions")
    some (record { x402_version = version; error = error; resource = resource; accepts = accepts })
