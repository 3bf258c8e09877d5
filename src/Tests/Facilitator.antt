-- ===== src/Tests/Facilitator.antt =====
-- The checks of a facilitator against small facilitators.
use x402_conformance.Prelude.{
  Present, String, refl, ◌≡◌, ◌↔◌, ◌⊎◌, ◌≤◌, ◌<◌, Option, none, some, [], ◌∷◌, Any, true, false,
  length,
}
use x402_conformance.Json.{Json, Items, Fields, as_str, set_field}
use x402_conformance.Models.{SettlementResponse, VerifyResponse, is_pending}
use x402_conformance.Payload.{PaymentPayload}
use x402_conformance.Probe.{Loaded, document, bytes}
use x402_conformance.Checks.Base.{Status, pass, fail, minor, Ran, returned}
use x402_conformance.Checks.Facilitator.{FaState, Client, response, post, initial, crashed}
use x402_conformance.Checks.Facilitator.Verify.{Answer, judge_002, judge_003, judge_004, judge_err}
use x402_conformance.Checks.Facilitator.Verify.Rejection.{
  status_of, Rejects, KnownReason, verify_verdicts_iff,
}
use x402_conformance.Checks.Facilitator.Extensions.{fa_ext_001}
use x402_conformance.Checks.Facilitator.Settle.{judge_again, judge_cheap, judge_pending}
use x402_conformance.Checks.Facilitator.Settle.Flow.{evaluate_settle}
use x402_conformance.Checks.Facilitator.Settle.Sending.{Sends}
use x402_conformance.Checks.Facilitator.Settle.Order.{Plan, evaluate_settle-Sends}
use x402_conformance.Checks.Facilitator.Settle.Double.{SettledOnce, Rejected, settle_verdicts_iff}
use x402_conformance.Checks.Facilitator.Evaluate.{FaCheck, evaluate_facilitator}
use x402_conformance.Checks.Facilitator.Evaluate.Match.{Completes, evaluate_facilitator-Completes}

abbrev text : String → String → Fields → Fields
text key value = Fields.field key (Json.str value)

abbrev offer : Fields
offer = text "network" "eip155:84532" (text "amount" "1000" Fields.end)

abbrev payment : String → PaymentPayload
payment value = record {
  x402_version = 2;
  accepted = offer;
  signature = "0x0f0e";
  authorization = record {
    from = "0xpayer";
    to = Json.str "0xshop";
    value = value;
    valid_after = "0";
    valid_before = "60";
    nonce = "0x01";
  };
  extensions = Fields.end;
  resource = none;
}

-- The payment that is built says its amount.
abbrev build : Fields → Ran PaymentPayload
build (Fields.field key network (Fields.field key' (Json.str amount) fs)) =
    returned (payment amount)
build _ = returned (payment "")

-- A facilitator that calls every settlement pending, and names its transaction.
abbrev pending_body : Fields
pending_body = Fields.field "success" (Json.bool false) (
    text "errorReason" "settlement_pending" (
      text "network" "eip155:84532" (
        text "transaction" "0xabababababababababababababababababababababababababababababababab"
          Fields.end)))

abbrev client : Client
client sent request = response 200 [] ""

abbrev loads : String → Loaded
loads body = document (Json.obj pending_body)

abbrev explain : Json → String
explain j = "invalid"

abbrev repr : Option String → String
repr none = "None"
repr (some s) = s

abbrev verify_tx : String → Ran (Status × String)
verify_tx transaction = returned (pass, "settled")

-- Two good payments, as the pending first is retried, and the underpaying one.
evaluate_settle-pending :
    length (
      (evaluate_settle client loads explain build repr true verify_tx true
        (some offer)
        initial).1.sent)
    ≡ 3
unfolding evaluate_settle set_field
evaluate_settle-pending = refl

cheap_built : build (set_field offer "amount" (Json.str "1")) ≡ returned (payment "1")
unfolding set_field
cheap_built = refl

evaluate_settle-Sends_example :
    Sends
      (Plan (post "/settle" (payment "1000") offer) (post "/settle" (payment "1") offer) true 3)
      (evaluate_settle client loads explain build repr true verify_tx true (some offer))
evaluate_settle-Sends_example =
    evaluate_settle-Sends client loads explain build repr true verify_tx offer (payment "1000")
      (payment "1") refl cheap_built

-- A second settlement with the hash of the first, and an underpaying one that is refused.
abbrev settled : SettlementResponse
settled = record {
  success = true;
  error_reason = none;
  payer = none;
  amount = none;
  transaction = "0xa1";
  network = "eip155:84532";
}

abbrev refused : SettlementResponse
refused = record {
  success = false;
  error_reason = some "insufficient_funds";
  payer = none;
  amount = none;
  transaction = "";
  network = "eip155:84532";
}

abbrev answer {ℓ} : {A : Type ℓ} → A → Answer A
answer a = record { response = some a; error = none; status = 200 }

settle_verdicts_iff_example :
    (((judge_again repr (some settled) settled (answer settled)).status ≡ pass)
      ↔ Present (some settled) (SettledOnce (some settled) settled))
    × (((judge_cheap repr (answer refused)).status ≡ pass) ↔ Present (some refused) Rejected)
    × (((judge_pending (settled ∷ refused ∷ [])).status ≡ fail)
        ↔ Any (λ r. (is_pending r ≡ true) × (r.transaction ≡ "")) (settled ∷ refused ∷ []))
settle_verdicts_iff_example =
    settle_verdicts_iff repr (some settled) settled (answer settled) (answer refused)
      (settled ∷ refused ∷ [])

-- An answer that rejects the payment with a known reason.
abbrev rejection : VerifyResponse
rejection = record { is_valid = false; invalid_reason = some "insufficient_funds"; payer = none }

verify_verdicts_iff_example :
    ((status_of (judge_002 repr (answer rejection) initial).0 ≡ some pass)
      ↔ Present (some rejection) Rejects)
    × ((status_of (judge_003 repr (answer rejection) initial).0 ≡ some pass)
        ↔ Present (some rejection) Rejects)
    × ((status_of (judge_err repr (answer rejection) initial).0 ≡ some pass)
        ↔ Present (some rejection) KnownReason)
    × ((status_of (judge_004 200 initial).0 ≡ some pass)
        ↔ (((200 ≤ 200) × (200 < 300)) ⊎ ((400 ≤ 200) × (200 < 500))))
verify_verdicts_iff_example = verify_verdicts_iff repr initial (answer rejection) refl

-- A resource server, which has no /verify.
abbrev no_endpoint : Client
no_endpoint sent request = response 405 [] "Method Not Allowed"

abbrev str_of : Json → String
str_of j = elim (as_str (some j)) [ none ↦ "None" | some s ↦ s ]

abbrev same_case : String → String
same_case s = s

abbrev unnamed : FaCheck
unnamed = record {
  check_id = "";
  title = "";
  severity = minor;
  spec_ref = "";
  func = judge_004 200;
}

-- A list as the status of the bazaar extension cannot be hashed, so the check crashes.
abbrev bazaar : Json
bazaar = Json.obj (
    Fields.field "bazaar" (Json.obj (Fields.field "status" (Json.arr Items.nil) Fields.end))
      Fields.end)

abbrev noted : FaState
noted = record {
  supported = none;
  supported_status = none;
  supported_error = none;
  absent_checks = [];
  noncanonical_checks = [];
  extension_responses = "e30=" ∷ [];
  sent = [];
}

abbrev ext_001 : FaCheck
ext_001 = record {
  check_id = "FA-EXT-001";
  title = "EXTENSION-RESPONSES is well-formed";
  severity = minor;
  spec_ref = "CORE §7.2.1";
  func = fa_ext_001 bytes (λ s. document bazaar) (λ j. "") (λ j. "TypeError") true;
}

unhashable_status :
    (fa_ext_001 bytes (λ s. document bazaar) (λ j. "") (λ j. "TypeError") true noted).0
    ≡ crashed "TypeError"
unfolding fa_ext_001
unhashable_status = refl

evaluate_facilitator-Completes_example :
    Completes (ext_001 ∷ []) (evaluate_facilitator (ext_001 ∷ []) (some noted))
evaluate_facilitator-Completes_example = evaluate_facilitator-Completes (ext_001 ∷ []) (some noted)
