-- ===== src/Tests/Active.antt =====
-- active.py and models.py: the choice of a requirement, and the retries of a payment.
use x402_conformance.Prelude.{
  ℕ, zero, suc, String, ◌≡◌, refl, true, false, Option, none, some, List, [], ◌∷◌,
}
use x402_conformance.Json.{Json, Items, Fields, get, as_str}
use x402_conformance.Models.{
  SettlementResponse, settlement_of_json, read_settlement, transaction_ok, get_field,
  VerifyResponse, verify_of_json, read_verify, reason_ok,
}
use x402_conformance.Safety.{
  SafetyViolation, default_safety_policy, is_violation, allowed_evm_networks, ok, err,
  require_safe_network, require_safe_text, network_chain_id,
}
use x402_conformance.Safety.Digits.{ascii, partition_colon, is_decimal, int_of}
use x402_conformance.Safety.Allowlist.{Listed}
use x402_conformance.Active.Response.{
  HttpResponse, Decoded, response_from, parse_settlement, header, mark_leak,
}
use x402_conformance.Active.Retry.{
  Exchange, Outcome, retryable, answered, conclude, do_request, do_from, retry_delay,
}
use x402_conformance.Active.Retry.Bounds.{Ends, do_request-Ends}
use x402_conformance.Active.Choose.{
  choose_eip3009_requirement, choose_from, is_eligible, settle_choice,
}
use x402_conformance.Active.Choose.Laws.{Payable, Offered}
use x402_conformance.Active.Choose.Refusal.{Refused}
use x402_conformance.Active.Choose.Outcome.{accepts_of, choose-eq-err, chosen_default}

abbrev token : Json
token =
    Json.obj
      (Fields.field "name" (Json.str "USDC") (Fields.field "version" (Json.str "2") Fields.end))

abbrev offer : String → Fields
offer network =
    Fields.field "scheme" (Json.str "exact")
      (Fields.field "network" (Json.str network) (Fields.field "extra" token Fields.end))

abbrev challenge : String → Option Fields
challenge network =
    some (
      Fields.field "accepts" (Json.arr (Items.cons (Json.obj (offer network)) Items.nil))
        Fields.end)

base_refused :
    choose_eip3009_requirement ascii default_safety_policy (challenge "eip155:8453")
    ≡ err (SafetyViolation.not_in_allowlist "eip155:8453")
unfolding choose_eip3009_requirement choose_from is_eligible settle_choice get require_safe_network
    require_safe_text network_chain_id partition_colon is_decimal int_of
base_refused = refl

sepolia_chosen :
    choose_eip3009_requirement ascii default_safety_policy (challenge "eip155:84532")
    ≡ ok (some (offer "eip155:84532"))
unfolding choose_eip3009_requirement choose_from is_eligible settle_choice get require_safe_network
    require_safe_text network_chain_id partition_colon is_decimal int_of
sepolia_chosen = refl

choose-eq-err_example :
    Refused ascii default_safety_policy
      (SafetyViolation.not_in_allowlist "eip155:8453")
      (accepts_of (challenge "eip155:8453"))
    × (is_violation (SafetyViolation.not_in_allowlist "eip155:8453") ≡ true
        → (f : Fields) → Offered f (accepts_of (challenge "eip155:8453"))
        → ¬ Payable ascii default_safety_policy f)
choose-eq-err_example =
    choose-eq-err ascii default_safety_policy (challenge "eip155:8453")
      (SafetyViolation.not_in_allowlist "eip155:8453") base_refused

chosen_default_example :
    (s : String) × (as_str (get (offer "eip155:84532") "network") ≡ some s)
    × Listed s allowed_evm_networks
chosen_default_example =
    chosen_default ascii (challenge "eip155:84532") (offer "eip155:84532") sepolia_chosen

abbrev no_header : String → Decoded
no_header s = Decoded.undecodable s

abbrev no_text : Json → String
no_text j = ""

abbrev ok_response : HttpResponse
ok_response = record { status_code = 402; headers = []; body = "" }

-- A timeout, and then an answer.
abbrev flaky : ℕ → Outcome
flaky zero = retryable "ConnectTimeout"
flaky (suc n) = answered ok_response

abbrev delays_of : Option Exchange → Option (List ℕ)
delays_of none = none
delays_of (some x) = some x.delays

one_retry : delays_of (do_request ascii no_header no_text none flaky) ≡ some (500 ∷ [])
unfolding do_request do_from retry_delay conclude response_from parse_settlement header mark_leak
one_retry = refl

do_request-Ends_example :
    Ends ascii no_header no_text none flaky 0 (do_request ascii no_header no_text none flaky)
do_request-Ends_example = do_request-Ends ascii no_header no_text none flaky

abbrev failed_settlement : Fields
failed_settlement = Fields.field "success" (Json.bool false) (
    Fields.field "transaction" (Json.str "")
      (Fields.field "network" (Json.str "eip155:84532") Fields.end))

abbrev failed : SettlementResponse
failed = record {
  success = false;
  transaction = "";
  network = "eip155:84532";
  error_reason = none;
  payer = none;
  amount = none;
}

failed_accepted : settlement_of_json (Json.obj failed_settlement) ≡ some failed
unfolding settlement_of_json read_settlement transaction_ok get_field get
failed_accepted = refl

abbrev invalid : VerifyResponse
invalid = record { is_valid = false; invalid_reason = some "invalid_signature"; payer = none }

abbrev invalid_answer : Fields
invalid_answer =
    Fields.field "isValid" (Json.bool false)
      (Fields.field "invalidReason" (Json.str "invalid_signature") Fields.end)

invalid_accepted : verify_of_json (Json.obj invalid_answer) ≡ some invalid
unfolding verify_of_json read_verify reason_ok get_field get
invalid_accepted = refl
