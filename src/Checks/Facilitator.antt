-- ===== src/Checks/Facilitator.antt =====
-- checks/facilitator.py: a run of the checks of a facilitator. Its context is a state that the checks
-- thread; what was sent so far is in it too, and the HTTP client is a function of that.
pub mod Codes
pub mod Supported
pub mod Verify
pub mod Extensions
pub mod Settle
pub mod Evaluate
use x402_conformance.Prelude.{
  ℕ, String, Bool, true, false, Option, none, some, List, [], ◌∷◌, ◌++◌, ◌==◌, nat_eq, leb, ltb,
  ◌&&◌, ◌||◌, not, if◌then◌else◌, fstring, decimal,
}
use x402_conformance.Json.{Json, Fields}
use x402_conformance.Active.Response.{Headers, header}
use x402_conformance.Payload.{PaymentPayload}
use x402_conformance.Checks.Base.{Status, skip, pass}

-- A request: GET /supported, or a POST of a payment with its requirements to the path.
pub data Request : Type 0 where
  get_supported : Request
  post : String → PaymentPayload → Fields → Request

-- What the client gives: a response, or an `httpx.HTTPError`.
pub data Reply : Type 0 where
  response : ℕ → Headers → String → Reply
  http_failed : String → Reply

-- The client, by the requests before this one.
abbrev pub Client : Type 0
Client = List Request → Request → Reply

-- The fields of FacilitatorContext that change, and what was sent.
pub record FaState : Type 0 where
  pub supported : Option Fields
  pub supported_status : Option ℕ
  pub supported_error : Option String
  pub absent_checks : List String
  pub noncanonical_checks : List String
  pub extension_responses : List String
  pub sent : List Request

abbrev pub initial : FaState
initial = record {
  supported = none;
  supported_status = none;
  supported_error = none;
  absent_checks = [];
  noncanonical_checks = [];
  extension_responses = [];
  sent = [];
}

-- How a call ends: with a value, with an `httpx.HTTPError`, or with another exception, by its `repr`.
pub data Outcome {ℓ} (A : Type ℓ) : Type ℓ where
  done : A → Outcome A
  http_error : String → Outcome A
  crashed : String → Outcome A

-- A call changes the state also if it raises.
abbrev pub Call {ℓ} : Type ℓ → Type ℓ
Call A = FaState → Outcome A × FaState

abbrev pub continue {ℓ κ} :
    {A : Type ℓ} {B : Type κ} → Outcome A × FaState → (A → Call B) → Outcome B × FaState
continue (done a, s) f = f a s
continue (http_error e, s) f = (http_error e, s)
continue (crashed e, s) f = (crashed e, s)

infixl 5 ◌>>=◌
abbrev pub ◌>>=◌ {ℓ κ} : {A : Type ℓ} {B : Type κ} → Call A → (A → Call B) → Call B
(m >>= f) s = continue (m s) f

abbrev pub return {ℓ} : {A : Type ℓ} → A → Call A
return a s = (done a, s)

abbrev pub crash {ℓ} : {A : Type ℓ} → String → Call A
crash exc s = (crashed exc, s)

-- `ctx.absent(check_id, detail)` and `ctx.noncanonical(check_id, detail)`
abbrev pub absent : String → String → Call (Status × String)
absent check_id detail s =
    (done (skip, detail), record s { absent_checks = check_id ∷ s.absent_checks })

abbrev pub noncanonical : String → String → Call (Status × String)
noncanonical check_id detail s =
    (done (pass, detail), record s { noncanonical_checks = check_id ∷ s.noncanonical_checks })

-- status in _ENDPOINT_ABSENT
abbrev pub is_absent : ℕ → Bool
is_absent status = status == 404 || status == 405 || status == 501

abbrev pub absence_reason : String → ℕ → String
absence_reason path status = fstring (
    path
    ∷ " is not implemented (HTTP "
    ∷ decimal status
    ∷ ") — no facilitator behaviour to test. If this target is a resource server rather than a facilitator, run the 'check' subcommand against the paywalled resource instead."
    ∷ [])

-- 200 <= status < 500
abbrev pub is_gradable : ℕ → Bool
is_gradable status = leb 200 status && ltb status 500

abbrev pub with_sent : Request → FaState → FaState
with_sent request s = record s { sent = s.sent ++ request ∷ [] }

abbrev pub respond : Request → Reply → Call (ℕ × Headers × String)
respond request (response status headers body) s =
    (done (status, headers, body), with_sent request s)
respond request (http_failed e) s = (http_error e, with_sent request s)

-- One request: its status, headers and body.
unfoldable pub send : Client → Request → Call (ℕ × Headers × String)
send client request s = respond request (client s.sent request) s
