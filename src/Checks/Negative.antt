-- ===== src/Checks/Negative.antt =====
-- checks/negative.py: the verdict on the answer to an invalid payment, the probes of the transport
-- header, and the builder-code echo. `repr` is Python's `repr` of a text.
pub mod Verdict
pub mod Echo
pub mod Probes
use Prim.Native.String
use x402_conformance.Prelude.{
  ◌*◌, ℕ, zero, suc, ◌+◌, String, Bool, true, false, Option, none, some, List, [], ◌∷◌, map, ◌==◌,
  nat_eq, string_eq, leb, ◌&&◌, ◌||◌, not, is_none, any, if◌then◌else◌, contains, fstring, decimal,
  join,
}
use x402_conformance.Models.{SettlementResponse, is_pending}
use x402_conformance.Active.Response.{ActiveResponse, served_resource, endpoint_crashed, settled_ok}
use x402_conformance.Checks.Base.{Status, pass, fail, status_eq}

-- `resp.transport_error or resp.status_code`, in an f-string
abbrev pub fault_text : ActiveResponse → String
fault_text r = elim r.transport_error [
  | none ↦ decimal r.status_code
  | some name ↦ if name == "" then decimal r.status_code else name
]

-- `resp.settlement.transaction`, or the empty text without a settlement
abbrev pub broadcast_hash : ActiveResponse → String
broadcast_hash r = elim r.settlement [ none ↦ "" | some s ↦ s.transaction ]

broadcast_state : ActiveResponse → String
broadcast_state r = elim r.settlement [
  | none ↦ "failed"
  | some s ↦ if is_pending s then "pending" else "failed"
]

module _ (repr : String → String) where
  -- `allowed` lists the allowed statuses in ascending order.
  unfoldable pub assert_rejected : ActiveResponse → List ℕ → Status × String
  unfolding endpoint_crashed served_resource settled_ok broadcast_state
  assert_rejected r allowed =
      if endpoint_crashed r || not (is_none r.transport_error) || r.status_code == 0
      then (
        fail,
        fstring ("endpoint crashed while rejecting an invalid payment (" ∷ fault_text r ∷ ")" ∷ []),
      )
      else if leb 500 r.status_code
      then (
        fail,
        fstring (
            "endpoint returned "
            ∷ decimal r.status_code
            ∷ " while processing an invalid payment"
            ∷ []),
      )
      else if not (is_none r.settlement_error)
      then (
        fail,
        fstring (
            "malformed PAYMENT-RESPONSE on rejection: "
            ∷ (elim r.settlement_error [ none ↦ "None" | some text ↦ text ])
            ∷ []),
      )
      else if served_resource r
      then (
        fail,
        fstring (
            "endpoint returned "
            ∷ decimal r.status_code
            ∷ " and SERVED the resource for an invalid payment — revenue/security leak"
            ∷ []),
      )
      else if settled_ok r
      then (fail, "endpoint reported successful settlement for an invalid payment")
      else if not (broadcast_hash r == "")
      then (
        fail,
        fstring (
            "rejection carries a broadcast transaction ("
            ∷ broadcast_state r
            ∷ ", "
            ∷ repr (broadcast_hash r)
            ∷ ") — the invalid payment reached the chain instead of being refused at verification"
            ∷ []),
      )
      else if r.marker_leaked
      then (
        fail,
        fstring (
            "status "
            ∷ decimal r.status_code
            ∷ " but the response body contained the resource marker — protected content leaked on the rejection path (RS-SEC-009)"
            ∷ []),
      )
      else if not (any (λ c. c == r.status_code) allowed)
      then (
        fail,
        fstring (
            "invalid payment returned unexpected status "
            ∷ decimal r.status_code
            ∷ "; expected "
            ∷ join ", " (map decimal allowed)
            ∷ []),
      )
      else (pass, fstring ("correctly rejected (status " ∷ decimal r.status_code ∷ ")" ∷ []))

abbrev pub malformed_402_note : String
malformed_402_note =
    " — note: the upstream x402 Python SDK (as of x402@cb0ec5b) answers a malformed PAYMENT-SIGNATURE with 402; if this endpoint uses it, the fix belongs upstream"

unfoldable pub with_malformed_note : Status × String → Status × String
with_malformed_note (status, detail) =
    if status == fail && contains detail "unexpected status 402"
    then (status, fstring (detail ∷ malformed_402_note ∷ []))
    else (status, detail)

-- range(first, first + n)
abbrev range : ℕ → ℕ → List ℕ
range first zero = []
range first (suc n) = first ∷ range (first + 1) n

-- "A" * n
letters : ℕ → String
letters zero = ""
letters (suc n) = String.◌∷◌ "A" (letters n)

-- The probes that choose the header's value themselves. `send_header` is the context's.
module _ (repr : String → String) (send_header : String → ActiveResponse) where
  unfoldable pub neg_001 : Status × String
  unfolding assert_rejected with_malformed_note
  neg_001 = with_malformed_note (assert_rejected repr (send_header "!!!not-base64!!!") (400 ∷ []))

  -- The header is the base64 of `{not valid json`.
  unfoldable pub neg_002 : Status × String
  unfolding assert_rejected with_malformed_note
  neg_002 =
      with_malformed_note (assert_rejected repr (send_header "e25vdCB2YWxpZCBqc29u") (400 ∷ []))

  unfoldable pub sec_005 : Status × String
  unfolding assert_rejected letters
  sec_005 = assert_rejected repr (send_header (letters (1024 * 1024))) (range 400 100)
