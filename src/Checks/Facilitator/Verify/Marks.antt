-- ===== src/Checks/Facilitator/Verify/Marks.antt =====
-- The checks of /verify on a facilitator that answers: which of their results say that it is absent.
use x402_conformance.Prelude.{ℕ, String, ◌≡◌, Option, [], string_eq}
use x402_conformance.Json.{Json, Fields, set_field}
use x402_conformance.Active.Response.{Headers}
use x402_conformance.Payload.{PaymentPayload}
use x402_conformance.Probe.{Loaded}
use x402_conformance.Checks.Base.{Status, Ran, CheckResult}
use x402_conformance.Checks.Facilitator.{Client, FaState, Outcome, Call, post, response}
use x402_conformance.Checks.Facilitator.Evaluate.{FaCheck, run_fa_check}
use x402_conformance.Checks.Facilitator.Verify.{eoa_asset}

-- What the run of the check gives, under the identifier and with the function.
abbrev pub run_as : FaCheck → String → Call (Status × String) → FaState → Outcome CheckResult
run_as check check_id func s =
    (run_fa_check (record check { check_id = check_id; func = func }) s).0

module _ (client : Client) (loads : String → Loaded) (explain : Json → String)
    (build : Fields → Ran PaymentPayload) (repr : Option String → String) (str_of : Json → String)
    (lower : String → String) (s : FaState) (fresh : s.absent_checks ≡ []) (requirements : Fields)
    (status : ℕ) (headers : Headers) (body : String) where
  -- The facilitator answers the post of the payment with the status, the headers and the body.
  abbrev Answers : PaymentPayload → Fields → Type 0
  Answers payload asked =
      client s.sent (post "/verify" payload asked) ≡ response status headers body

  abbrev eoa : Fields
  eoa = set_field requirements "asset" (Json.str eoa_asset)
