-- ===== src/Probe.antt =====
-- probe.py: an unpaid answer, and the staged decoding of its PAYMENT-REQUIRED header. Bytes are
-- texts of one character to a byte.
pub mod Staged
pub mod Findings
use Prim.Native.String
use x402_conformance.Prelude.{
  ℕ, zero, suc, ◌*◌, String, Bool, true, false, Option, none, some, List, [], ◌∷◌, ◌++◌, ◌==◌,
  string_eq, ltb, ◌&&◌, not, is_none, any, keep, if◌then◌else◌, fstring, decimal,
}
use x402_conformance.Json.{Json, Fields}
use x402_conformance.Models.Challenge.{PaymentRequired, payment_required_of_fields}
use x402_conformance.Active.Response.{Headers, header, HttpResponse}
use x402_conformance.Checks.Base.{Ran, returned, raised}

pub record Probe : Type 0 where
  pub status_code : ℕ
  pub headers : Headers
  pub body : String
  pub header_b64 : Option String
  pub decoded : Option String
  pub decode_error : Option String
  pub raw : Option Fields
  pub json_error : Option String
  pub parsed : Option PaymentRequired
  pub parse_error : Option String
  pub nonstandard_json_literals : List String
  pub duplicate_json_keys : List String

abbrev pub payment_required_header : String
payment_required_header = "payment-required"

abbrev pub legacy_headers : List String
legacy_headers = "x-payment" ∷ "x-payment-required" ∷ "x-payment-response" ∷ []

unfoldable pub legacy_headers_present : Probe → List String
unfolding header
legacy_headers_present p = keep (λ h. not (is_none (header p.headers h))) legacy_headers

abbrev pub max_challenge_bytes : ℕ
max_challenge_bytes = 256 * 1024

abbrev pub size : String → ℕ
size String.[] = zero
size (String.◌∷◌ c s) = suc (size s)

-- `name in names`
abbrev pub member : String → List String → Bool
member name names = any (λ n. n == name) names

-- What `base64.b64decode(…, validate=True)` does: the bytes, or the text of its exception.
pub data Base64 : Type 0 where
  bytes : String → Base64
  invalid : String → Base64

-- How `json.loads` ends, where the caller catches what it raises: a document, the text of a JSONDecodeError, or a RecursionError.
pub data Loaded : Type 0 where
  document : Json → Loaded
  malformed : String → Loaded
  too_deep : Loaded

-- A run of `json.loads` on bytes, which may also raise what `build_probe` does not catch: a
-- UnicodeDecodeError, or the ValueError for an integer of more than 4300 digits. It comes with the calls that it makes of the hooks: the names that it gives to
-- `parse_constant`, and the keys of each object that it gives to `object_pairs_hook`.
pub record Parse : Type 0 where
  pub end : Ran Loaded
  pub constants : List String
  pub objects : List (List String)

-- The record of `parse_constant`, after its calls.
unfoldable pub record_literals : List String → List String → List String
record_literals found [] = found
record_literals found (name ∷ names) =
    record_literals (if member name found then found else found ++ name ∷ []) names

-- The loop of `object_pairs_hook` over one object, from the keys that it has seen.
unfoldable pub record_duplicates : List String → List String → List String → List String
record_duplicates found seen [] = found
record_duplicates found seen (key ∷ keys) =
    record_duplicates
      (if member key seen && not (member key found) then found ++ key ∷ [] else found) (key ∷ seen)
      keys

abbrev pub record_objects : List String → List (List String) → List String
record_objects found [] = found
record_objects found (keys ∷ objects) = record_objects (record_duplicates found [] keys) objects

-- `type(loaded).__name__`
abbrev pub type_name : Json → String
type_name Json.null = "NoneType"
type_name (Json.bool b) = "bool"
type_name (Json.int z) = "int"
type_name (Json.float s) = "float"
type_name (Json.str s) = "str"
type_name (Json.arr vs) = "list"
type_name (Json.obj fs) = "dict"

-- A probe before its header is decoded.
abbrev pub undecoded : HttpResponse → Probe
undecoded response = record {
  status_code = response.status_code;
  headers = response.headers;
  body = response.body;
  header_b64 = none;
  decoded = none;
  decode_error = none;
  raw = none;
  json_error = none;
  parsed = none;
  parse_error = none;
  nonstandard_json_literals = [];
  duplicate_json_keys = [];
}

module _ (positive : String → Bool) (b64decode : String → Base64) (loads : String → Parse)
    (explain : Fields → String) where
  abbrev with_model : Probe → Fields → Option PaymentRequired → Probe
  with_model p fs none = record p { raw = some fs; parse_error = some (explain fs) }
  with_model p fs (some model) = record p { raw = some fs; parsed = some model }

  abbrev with_loaded : Probe → Loaded → Probe
  with_loaded p (document (Json.obj fs)) = with_model p fs (payment_required_of_fields positive fs)
  with_loaded p (document j) = record p {
    json_error = some (fstring ("top-level JSON is " ∷ type_name j ∷ ", expected object" ∷ []));
  }
  with_loaded p (malformed text) = record p {
    json_error = some (fstring ("invalid JSON: " ∷ text ∷ []));
  }
  with_loaded p too_deep = record p { json_error = some "JSON nesting is too deep to parse" }

  abbrev after_loads : Probe → Ran Loaded → Ran Probe
  after_loads p (returned loaded) = returned (with_loaded p loaded)
  after_loads p (raised exc) = raised exc

  abbrev with_decoded : Probe → String → Ran Probe
  with_decoded p content =
      let parse = loads content in
      if ltb max_challenge_bytes (size content)
      then returned (record p {
        decoded = some content;
        json_error = some (
            fstring (
              "challenge is "
              ∷ decimal (size content)
              ∷ " bytes, over the "
              ∷ decimal max_challenge_bytes
              ∷ "-byte limit — not parsed"
              ∷ []));
      })
      else after_loads
          (record p {
            decoded = some content;
            nonstandard_json_literals = record_literals [] parse.constants;
            duplicate_json_keys = record_objects [] parse.objects;
          })
          parse.end

  abbrev with_base64 : Probe → Base64 → Ran Probe
  with_base64 p (bytes b) = with_decoded p b
  with_base64 p (invalid text) =
      returned (record p { decode_error = some (fstring ("invalid base64: " ∷ text ∷ [])) })

  abbrev with_header : Probe → Option String → Ran Probe
  with_header p none = returned p
  with_header p (some value) = with_base64 (record p { header_b64 = some value }) (b64decode value)

  -- The header names of the response are in lower case already.
  unfoldable pub build_probe : HttpResponse → Ran Probe
  unfolding header record_literals record_duplicates payment_required_of_fields
  build_probe response =
      with_header (undecoded response) (header response.headers payment_required_header)
