-- ===== src/Tests/Settlement.antt =====
-- The payment flow against an endpoint that settles every payment, and the proof on a small chain.
use x402_conformance.Prelude.{
  Present, Option, String, refl, ◌≡◌, ◌↔◌, ◌⊎◌, ◌≤◌, true, false, none, some, [], ◌∷◌, keep, length,
  decimal, is_space,
}
use x402_conformance.Prelude.Int.{pos}
use x402_conformance.Json.{Json, Fields, get, is_text}
use x402_conformance.Models.{SettlementResponse, is_evm_tx_hash, hex_run}
use x402_conformance.Safety.Digits.{ascii, int_text, int_base16, partition_colon}
use x402_conformance.Active.Response.{ActiveResponse, served_resource, settled_ok}
use x402_conformance.Payload.{
  PaymentPayload, Library, build_exact_eip3009_payload, sign_authorization, typed_data,
  chain_id_from_caip2,
}
use x402_conformance.Checks.Base.{Status, Ran, pass}
use x402_conformance.Checks.Facilitator.{initial}
use x402_conformance.Checks.Facilitator.Settle.{Stage, judge_first}
use x402_conformance.Checks.Facilitator.Settle.Chain.{
  verify_settled, Proven, result_status, judge_first-Proven_iff,
}
use x402_conformance.Checks.Payment.{PaymentContext, Chain, read_token_balance, preflight}
use x402_conformance.Checks.Payment.Transfer.{
  fullmatch_address, bytes, Log, Receipt, Lookup, not_found, found, verify_tx_onchain,
  verify_transfer_logs,
}
use x402_conformance.Checks.Payment.Transfer.Proof.{Proves, verify_tx_onchain_iff}
use x402_conformance.Checks.Payment.Verdicts.{judge_delivery, judge_settlement}
use x402_conformance.Checks.Payment.Flow.{
  accepts, build_at, judge_replay, judge_race, pay_race, evaluate_payment,
}
use x402_conformance.Checks.Payment.Flow.Passes.{IsSettled, IsClean, payment_verdicts_iff}
use x402_conformance.Checks.Payment.Flow.Sent.{Funded, Course, evaluate_payment_lem}

abbrev payer : String
payer = "0xPAYER"

abbrev shop : String
shop = "0xSHOP"

abbrev coin : String
coin = "0xCOIN"

abbrev library : Library
library = record {
  unicode = ascii;
  show = λ j. "";
  truncate = λ j. none;
  from_hex = λ s. some s;
  address = payer;
  sign = λ message. some "0x0f0e";
  recover = λ message signature. some payer;
  lower = λ s. s;
}

abbrev text : String → String → Fields → Fields
text key value = Fields.field key (Json.str value)

abbrev offer : Fields
offer = text "network" "eip155:84532" (
    text "amount" "1000" (
      text "payTo" shop (
        text "asset" coin (
          Fields.field "extra" (Json.obj (text "name" "USDC" (text "version" "2" Fields.end)))
            Fields.end))))

abbrev settled : SettlementResponse
settled = record {
  success = true;
  error_reason = none;
  payer = some payer;
  amount = none;
  transaction = "0xTX";
  network = "eip155:84532";
}

abbrev delivery : ActiveResponse
delivery = record {
  status_code = 200;
  headers = [];
  body = "";
  settlement = some settled;
  settlement_error = none;
  marker_leaked = false;
  transport_error = none;
  redirect_blocked = none;
}

abbrev context : PaymentContext
context = record {
  resource_url = "https://shop.example/paid";
  requirements = offer;
  extensions = Fields.end;
  challenge_headers = [];
  send = λ sent payload. delivery;
  lib = library;
  is_digit = λ c. false;
  now = 1000;
  nonce = "0x01";
  race_now = 1010;
  race_nonce = "0x02";
  repr = λ s. s;
  repr_of = λ o. "";
  exc = "ValueError";
}

-- The payment, its replay and the five of the race.
sends_seven : length (evaluate_payment (some context) none).1 ≡ 7
unfolding evaluate_payment build_exact_eip3009_payload sign_authorization typed_data
    chain_id_from_caip2 get int_text partition_colon decimal is_space pay_race preflight
sends_seven = refl

-- A signer with 255 units cannot pay 1000.
abbrev poor : Chain
poor = record { call = λ token call_data. some "ff"; look_up = λ tx. not_found "" }

sends_nothing : (evaluate_payment (some context) (some poor)).1 ≡ []
unfolding evaluate_payment get int_text decimal is_space preflight read_token_balance int_base16
sends_nothing = refl

evaluate_payment_lem_example :
    ((evaluate_payment (some context) (some poor)).1 ≡ [])
    ⊎ (Funded context (some poor)
        × ((payload : PaymentPayload) × (build_at context 1000 "0x01" ≡ some payload)
            × Course context payload (evaluate_payment (some context) (some poor)).1))
evaluate_payment_lem_example = evaluate_payment_lem context (some poor)

payment_verdicts_iff_example :
    (((judge_delivery context delivery).status ≡ pass) ↔ (served_resource delivery ≡ true))
    × (((judge_settlement context delivery).status ≡ pass)
        ↔ (IsClean none × Present (some settled) IsSettled))
    × (((judge_replay delivery).status ≡ pass)
        ↔ ((served_resource delivery ≡ false) × (settled_ok delivery ≡ false)))
    × (((judge_race (delivery ∷ delivery ∷ [])).status ≡ pass)
        ↔ (length (keep accepts (delivery ∷ delivery ∷ [])) ≤ 1))
payment_verdicts_iff_example =
    payment_verdicts_iff context delivery delivery (delivery ∷ delivery ∷ [])

-- A receipt with one Transfer of 1000 units from one address to the other.
abbrev hash : String
hash = "0xdddddddddddddddddddddddddddddddddddddddddddddddddddddddddddddddd"

abbrev token : String
token = "0xcccccccccccccccccccccccccccccccccccccccc"

abbrev from : String
from = "0xaaaaaaaaaaaaaaaaaaaaaaaaaaaaaaaaaaaaaaaa"

abbrev to : String
to = "0xbbbbbbbbbbbbbbbbbbbbbbbbbbbbbbbbbbbbbbbb"

abbrev log : Log
log = record {
  address = some token;
  topics = some (
      bytes "ddf252ad1be2c89b69c2b068fc378daa952ba7f163c4a11628f55a4df523b3ef"
      ∷ bytes "000000000000000000000000aaaaaaaaaaaaaaaaaaaaaaaaaaaaaaaaaaaaaaaa"
      ∷ bytes "000000000000000000000000bbbbbbbbbbbbbbbbbbbbbbbbbbbbbbbbbbbbbbbb"
      ∷ []);
  log_data = some (bytes "03e8");
  fault = "";
}

abbrev receipt : Receipt
receipt = record {
  transaction_hash =
      some (bytes "dddddddddddddddddddddddddddddddddddddddddddddddddddddddddddddddd");
  status = some (pos 1);
  fault = "";
  logs = log ∷ [];
  block = "7";
}

abbrev look_up : String → Lookup
look_up tx = found receipt

proven : (verify_tx_onchain (λ s. s) token from to (pos 1000) ascii (λ s. s) look_up hash).0 ≡ pass
unfolding verify_tx_onchain verify_transfer_logs fullmatch_address hex_run is_evm_tx_hash int_base16
proven = refl

verify_tx_onchain_iff_example :
    ((verify_tx_onchain (λ s. s) token from to (pos 1000) ascii (λ s. s) look_up hash).0 ≡ pass) ↔ (
      (is_evm_tx_hash hash ≡ true)
      × Proves (λ s. s) token from to (pos 1000) ascii (λ s. s) hash (found receipt))
verify_tx_onchain_iff_example =
    verify_tx_onchain_iff (λ s. s) token from to (pos 1000) ascii (λ s. s) look_up hash

-- A line feed behind the digits makes an address malformed.
line_feed_address : fullmatch_address "0xcccccccccccccccccccccccccccccccccccccccc\n" ≡ false
unfolding fullmatch_address hex_run
line_feed_address = refl

-- The facilitator's settlement check with this chain.
abbrev signer : Library
signer = record library { address = from }

abbrev requirements : Fields
requirements =
    text "network" "eip155:84532"
      (text "amount" "1000" (text "payTo" to (text "asset" token Fields.end)))

abbrev confirmed : SettlementResponse
confirmed = record settled { transaction = hash }

abbrev stage : Stage
stage = record {
  first_pending = none;
  r1 = some confirmed;
  decided = none;
  answers = confirmed ∷ [];
}

abbrev show : Option String → String
show o = ""

abbrev prove : String → Ran (Status × String)
prove = verify_settled signer "KeyError" (λ s. s) look_up requirements

set_001_passes :
    result_status (judge_first show true prove requirements none stage initial).0 ≡ some pass
unfolding judge_first verify_settled verify_tx_onchain verify_transfer_logs fullmatch_address
    hex_run is_evm_tx_hash int_base16 get int_text decimal is_space
set_001_passes = refl

judge_first-Proven_iff_example :
    (result_status (judge_first show true prove requirements none stage initial).0 ≡ some pass)
    ↔ Present (some confirmed) (λ r.
      (r.success ≡ true)
      × (is_text (get requirements "network") r.network ≡ true)
      × Proven signer "KeyError" (λ s. s) look_up requirements r.transaction)
judge_first-Proven_iff_example =
    judge_first-Proven_iff signer "KeyError" (λ s. s) look_up show requirements initial none stage
