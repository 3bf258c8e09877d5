-- ===== src/Active/Response.antt =====
-- active.py: the answer to a payment attempt, its settlement header, and what it shows.
-- Bytes are texts of one character to a byte.
use x402_conformance.Prelude.{
  ℕ, String, Bool, true, false, Option, none, some, List, [], ◌∷◌, ◌==◌, string_eq, nat_eq, leb,
  ltb, ◌&&◌, ◌||◌, not, is_none, if◌then◌else◌, contains, fstring,
}
use x402_conformance.Json.{Json}
use x402_conformance.Models.{SettlementResponse, settlement_of_json}
use x402_conformance.Safety.{is_redirect}

-- Lower-cased header names with their values.
abbrev pub Headers : Type 0
Headers = List (String × String)

unfoldable pub header : Headers → String → Option String
header [] name = none
header ((k, v) ∷ hs) name = let rest = header hs name in if k == name then some v else rest

-- An HTTP response as the client returns it.
pub record HttpResponse : Type 0 where
  pub status_code : ℕ
  pub headers : Headers
  pub body : String

pub record ActiveResponse : Type 0 where
  pub status_code : ℕ
  pub headers : Headers
  pub body : String
  pub settlement : Option SettlementResponse
  pub settlement_error : Option String
  pub marker_leaked : Bool
  pub transport_error : Option String
  -- the status in the text `payment redirect blocked (HTTP …)`
  pub redirect_blocked : Option ℕ

unfoldable pub served_resource : ActiveResponse → Bool
served_resource r = is_none r.transport_error && (leb 200 r.status_code && ltb r.status_code 300)

unfoldable pub endpoint_crashed : ActiveResponse → Bool
endpoint_crashed r = not (is_none r.transport_error) || leb 500 r.status_code

unfoldable pub settled_ok : ActiveResponse → Bool
settled_ok r = elim r.settlement [ none ↦ false | some s ↦ s.success ]

-- The answer to a request that was not answered.
abbrev pub unanswered : Option String → ActiveResponse
unanswered transport_error = record {
  status_code = 0;
  headers = [];
  body = "";
  settlement = none;
  settlement_error = none;
  marker_leaked = false;
  transport_error = transport_error;
  redirect_blocked = none;
}

-- What base64 and `json.loads` make of a header value: a document, or the text of the exception.
pub data Decoded : Type 0 where
  document : Json → Decoded
  undecodable : String → Decoded

-- `decode` is the base64 and JSON decoding, `explain` the text of a ValidationError.
module _ (decode : String → Decoded) (explain : Json → String) where
  validated : Json → Option SettlementResponse → Option SettlementResponse × Option String
  validated j none = (none, some (fstring ("unparseable PAYMENT-RESPONSE: " ∷ explain j ∷ [])))
  validated j (some s) = (some s, none)

  unfoldable pub parse_settlement : Headers → Option SettlementResponse × Option String
  unfolding validated header
  parse_settlement headers = elim (header headers "payment-response") [
    | none ↦ (none, none)
    | some raw ↦ elim (decode raw) [
      | undecodable text ↦ (none, some (fstring ("unparseable PAYMENT-RESPONSE: " ∷ text ∷ [])))
      | document j ↦ validated j (settlement_of_json j)
    ]
  ]

  unfoldable pub response_from : HttpResponse → ActiveResponse
  unfolding parse_settlement
  response_from response =
      let (settlement, settlement_error) = parse_settlement response.headers in
      record {
        status_code = response.status_code;
        headers = response.headers;
        body = response.body;
        settlement = settlement;
        settlement_error = settlement_error;
        marker_leaked = false;
        transport_error = none;
        redirect_blocked =
            if is_redirect response.status_code then some response.status_code else none;
      }

-- `if marker_bytes and marker_bytes in ar.body: ar = replace(ar, marker_leaked=True)`
unfoldable pub mark_leak : Option String → ActiveResponse → ActiveResponse
mark_leak none r = r
mark_leak (some marker) r =
    if not (marker == "") && contains r.body marker then record r { marker_leaked = true } else r
