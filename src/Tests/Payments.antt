-- ===== src/Tests/Payments.antt =====
-- payload_builder.py and the signed probes of checks/negative.py with a library that signs nothing.
use x402_conformance.Json.{set_field}
use x402_conformance.Payload.{signature_recovers_to_authorizer}
use x402_conformance.Checks.Negative.Probes.{attacker, redirection, build_payload, build_window}
use x402_conformance.Checks.Negative.Probes.Redirected.{Redirected, redirection-Redirected}
use x402_conformance.Prelude.{
  String, ◌≡◌, ◌≢◌, ◌↔◌, refl, none, some, [], ◌∷◌, decimal, is_space, false,
}
use x402_conformance.Json.{Json, Fields, get}
use x402_conformance.Safety.Digits.{ascii, int_text, partition_colon}
use x402_conformance.Active.Response.{ActiveResponse}
use x402_conformance.Checks.Base.{pass, returned}
use x402_conformance.Checks.Negative.Verdict.{Rejected}
use x402_conformance.Checks.Negative.Probes.{ActiveContext, attack, underpayment, neg_005}
use x402_conformance.Checks.Negative.Probes.Underpaid.{Underpaid, neg_005-Underpaid}
use x402_conformance.Checks.PathVariants.Escape.{hex_value}
use x402_conformance.Payload.{
  PaymentPayload, Library, build_exact_eip3009_payload, sign_authorization, typed_data,
  chain_id_from_caip2,
}
use x402_conformance.Payload.Tamper.{flip_first_byte, hex_bytes}
use x402_conformance.Payload.Tamper.Flip.{flip_first_byte_lem}

abbrev payer : String
payer = "0x00000000000000000000000000000000000000A1"

abbrev library : Library
library = record {
  unicode = ascii;
  show = λ j. "";
  truncate = λ j. none;
  from_hex = λ s. some s;
  address = payer;
  sign = λ message. some "0x0f0e";
  recover = λ message signature. some payer;
  lower = λ s. s;
}

abbrev token : Json
token =
    Json.obj
      (Fields.field "name" (Json.str "USDC") (Fields.field "version" (Json.str "2") Fields.end))

abbrev offer : Fields
offer = Fields.field "network" (Json.str "eip155:84532") (
    Fields.field "amount" (Json.str "1000") (
      Fields.field "payTo" (Json.str "0xshop")
        (Fields.field "asset" (Json.str "0xtoken") (Fields.field "extra" token Fields.end))))

abbrev payment : PaymentPayload
payment = record {
  x402_version = 2;
  accepted = offer;
  signature = "0x0f0e";
  authorization = record {
    from = payer;
    to = Json.str "0xshop";
    value = "1000";
    valid_after = "0";
    valid_before = "1300";
    nonce = "0x01";
  };
  extensions = Fields.end;
  resource = none;
}

flipped : flip_first_byte "0f0e" ≡ some "f00e"
unfolding flip_first_byte hex_bytes hex_value
flipped = refl

flip_first_byte_lem_example :
    (flip_first_byte "f00e" ≡ hex_bytes "0f0e") × (hex_bytes "0f0e" ≢ some "f00e")
flip_first_byte_lem_example = flip_first_byte_lem "0f0e" "f00e" flipped

abbrev refusal : ActiveResponse
refusal = record {
  status_code = 402;
  headers = [];
  body = "";
  settlement = none;
  settlement_error = none;
  marker_leaked = false;
  transport_error = none;
  redirect_blocked = none;
}

abbrev context : ActiveContext
context = record {
  resource_url = "https://shop.example/paid";
  requirements = offer;
  extensions = Fields.end;
  send = λ payload. refusal;
  send_with_headers = λ payload headers. refusal;
  lib = library;
  now = 1000;
  nonce = "0x01";
  repr = λ s. s;
  exc = "AssertionError()";
}

neg_005-Underpaid_example :
    (((detail : String) × (neg_005 context ≡ returned (pass, detail))) ↔ (
      (sent : PaymentPayload) × (underpayment context ≡ attack sent) × Rejected refusal (402 ∷ [])))
    × ((sent : PaymentPayload) → underpayment context ≡ attack sent → Underpaid context sent)
neg_005-Underpaid_example = neg_005-Underpaid context

abbrev redirected_payment : PaymentPayload
redirected_payment = record {
  x402_version = 2;
  accepted = offer;
  signature = "0x0f0e";
  authorization = record {
    from = payer;
    to = Json.str attacker;
    value = "1000";
    valid_after = "0";
    valid_before = "1300";
    nonce = "0x01";
  };
  extensions = Fields.end;
  resource = some "https://shop.example/paid";
}

redirected : redirection context ≡ attack redirected_payment
unfolding redirection build_payload build_window set_field signature_recovers_to_authorizer
    build_exact_eip3009_payload sign_authorization typed_data chain_id_from_caip2 get int_text
    partition_colon decimal is_space
redirected = refl

redirection-Redirected_example : Redirected context redirected_payment
redirection-Redirected_example = redirection-Redirected context redirected_payment redirected
