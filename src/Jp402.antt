-- ===== src/Jp402.antt =====
-- jp402.py: where the JP402 block and the invoices stand, the invoice's fields, and powers of ten;
-- and the fetch of the OpenAPI document in runner.py that the block brings about.
pub mod Laws
use Prim.Native.Char.{code}
use Prim.Native.String
use x402_conformance.Prelude.{
  ℕ, zero, suc, ◌/◌, ◌%◌, String, Bool, true, false, Option, none, some, List, [], ◌∷◌, ◌++◌, ◌==◌,
  string_eq, nat_eq, leb, ◌&&◌, ◌||◌, not, if◌then◌else◌, fstring, decimal,
}
use x402_conformance.Prelude.Int.{ℤ, pos, negsuc}
use x402_conformance.Json.{Json, Items, Fields, get, as_dict, as_list, dict_or_empty}

-- `entry.get(key)` for the first of the two keys that holds an object
abbrev pub block_of : Fields → Option Fields
block_of entry = elim (as_dict (get entry "jp402")) [
  | some block ↦ some block
  | none ↦ as_dict (get entry "x-jp402")
]

unfoldable pub find_in : List Json → Option (Fields × Fields)
unfolding get
find_in [] = none
find_in (j ∷ js) =
    let rest = find_in js in
    elim (as_dict (some j)) [
      | none ↦ rest
      | some entry ↦ elim (block_of entry) [ none ↦ rest | some block ↦ some (entry, block) ]
    ]

abbrev pub list_or_empty : Option (List Json) → List Json
list_or_empty none = []
list_or_empty (some l) = l

unfoldable pub find_jp402_accept : Fields → Option (Fields × Fields)
unfolding find_in
find_jp402_accept raw = find_in (list_or_empty (as_list (get raw "accepts")))

abbrev pub second : Option (Fields × Fields) → Option Fields
second none = none
second (some (entry, block)) = some block

unfoldable pub find_jp402 : Fields → Option Fields
unfolding find_jp402_accept
find_jp402 raw = elim (block_of (dict_or_empty (get raw "extensions"))) [
  | some block ↦ some block
  | none ↦ second (find_jp402_accept raw)
]

-- The loop of `_is_power_of_ten`, with as many rounds as fuel.
unfoldable pub strip_zeros : ℕ → ℕ → ℕ
strip_zeros zero n = n
strip_zeros (suc f) n = let rest = strip_zeros f (n / 10) in if n % 10 == 0 then rest else n

-- `n` rounds are enough: each one makes the number smaller.
unfoldable pub is_power_of_ten : ℤ → Bool
unfolding strip_zeros
is_power_of_ten (negsuc n) = false
is_power_of_ten (pos n) = if not (leb 1 n) then false else strip_zeros n n == 1

-- The invoice of `container["x-jp402"]`, for a container that is an object.
abbrev pub invoice_in : Option Json → List Fields
invoice_in container =
    elim (as_dict (get (dict_or_empty (get (dict_or_empty container) "x-jp402")) "invoice")) [
      | none ↦ []
      | some invoice ↦ invoice ∷ []
    ]

abbrev pub operations : Fields → List Fields
operations Fields.end = []
operations (Fields.field k op ops) = invoice_in (some op) ++ operations ops

abbrev pub path_items : Fields → List Fields
path_items Fields.end = []
path_items (Fields.field k item rest) = operations (dict_or_empty (some item)) ++ path_items rest

unfoldable pub find_invoice_blocks : Fields → List Fields
unfolding get
find_invoice_blocks openapi =
    invoice_in (get openapi "info") ++ path_items (dict_or_empty (get openapi "paths"))

abbrev digits_then_end : ℕ → String → Bool
digits_then_end zero String.[] = true
digits_then_end zero (String.◌∷◌ c String.[]) = code c == 10
digits_then_end zero s = false
digits_then_end (suc n) String.[] = false
digits_then_end (suc n) (String.◌∷◌ c s) = leb 48 (code c) && leb (code c) 57 && digits_then_end n s

-- `_T_NUMBER_RE.match(s)`: the dollar sign also matches before a line feed that ends the text
unfoldable pub is_t_number : String → Bool
is_t_number String.[] = false
is_t_number (String.◌∷◌ c s) = code c == b'T' && digits_then_end 13 s

-- `repr` is `repr` of the value.
module _ (repr : Json → String) where
  abbrev pub number_problem : Json → List String
  number_problem reg =
      fstring (
        "registrationNumber "
        ∷ repr reg
        ∷ " is not a valid qualified-invoice number (expected 'T' + 13 digits)"
        ∷ [])
      ∷ []

  abbrev pub registration_problems : Option Json → List String
  registration_problems none = []
  registration_problems (some Json.null) = []
  registration_problems (some (Json.str s)) =
      if is_t_number s then [] else number_problem (Json.str s)
  registration_problems (some j) = number_problem j

  abbrev pub flag_problems : String → Option Json → List String
  flag_problems flag none = []
  flag_problems flag (some (Json.bool b)) = []
  flag_problems flag (some _) = fstring (flag ∷ " must be a boolean" ∷ []) ∷ []

  unfoldable pub validate_invoice : Fields → List String
  unfolding is_t_number get
  validate_invoice invoice =
      registration_problems (get invoice "registrationNumber")
      ++ flag_problems "qualifiedIssuer" (get invoice "qualifiedIssuer")
      ++ flag_problems "smallAmountException" (get invoice "smallAmountException")

-- What the request for `/openapi.json` gave: the name of an exception, or a status and the body, as
-- JSON or as the name of the decoding's exception.
pub data Fetched : Type 0 where
  failed : String → Fetched
  bad_status : ℕ → Fetched
  undecoded : String → Fetched
  decoded : Json → Fetched

-- The document and the note of a fetch. `bad_status` stands for a status other than 200.
abbrev pub read_openapi : Fetched → Option Fields × Option String
read_openapi (failed name) =
    (none, some (fstring ("jp402 advertised but /openapi.json unreachable: " ∷ name ∷ [])))
read_openapi (bad_status status) = (
  none,
  some (fstring ("jp402 advertised but /openapi.json returned HTTP " ∷ decimal status ∷ [])),
)
read_openapi (undecoded name) =
    (none, some (fstring ("jp402 advertised but /openapi.json is not valid JSON: " ∷ name ∷ [])))
read_openapi (decoded (Json.obj doc)) = (some doc, none)
read_openapi (decoded _) = (none, some "jp402 advertised but /openapi.json is not a JSON object")

-- `request` sends the request for the origin; `scheme` and `netloc` are the URL's.
unfoldable pub maybe_fetch_openapi :
    (String → String → Fetched) → String → String → Option Fields → Option Fields × Option String
unfolding find_jp402
maybe_fetch_openapi request scheme netloc none = (none, none)
maybe_fetch_openapi request scheme netloc (some raw) = elim (find_jp402 raw) [
  | none ↦ (none, none)
  | some block ↦
      if scheme == "" || netloc == ""
      then (none, some "jp402 advertised but target URL has no scheme/host to derive /openapi.json")
      else read_openapi (request scheme netloc)
]
