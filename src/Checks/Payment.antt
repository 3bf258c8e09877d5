-- ===== src/Checks/Payment.antt =====
-- checks/payment.py: one funded payment, what it must come to, its replay and its race. What was sent
-- is a state that the run threads, and the endpoint is a function of it.
pub mod Transfer
pub mod Verdicts
pub mod Flow
use x402_conformance.Prelude.{
  ℕ, zero, suc, String, Bool, true, false, Option, none, some, List, [], ◌∷◌, ◌++◌, map, keep,
  length, ◌==◌, string_eq, leb, ltb, ◌&&◌, ◌||◌, not, is_none, if◌then◌else◌, fstring, decimal,
  join, contains,
}
use x402_conformance.Prelude.Int.{ℤ, pos, negsuc, is_nonpositive}
use x402_conformance.Json.{Json, Fields, get, is_text}
use x402_conformance.Models.{SettlementResponse, is_pending}
use x402_conformance.Active.Response.{Headers, header, ActiveResponse, served_resource, settled_ok}
use x402_conformance.Payload.{
  PaymentPayload, Library, str_of, int_value, decimal_int, build_exact_eip3009_payload,
}
use x402_conformance.Safety.Digits.{int_base16}
use x402_conformance.Checks.Base.{
  Severity, critical, major, minor, Status, pass, fail, skip, error, ReasonCode, CheckResult, Ran,
  returned, raised,
}
use x402_conformance.Checks.Handshake.{positive_max_age}
use x402_conformance.Checks.Payment.Transfer.{Lookup, padded, without_0x, verify_tx_onchain}

pub data PayCheck : Type 0 where
  pay_001 pay_002 pay_003 pay_004 sec_001 sec_002 hs_008 hs_009 : PayCheck

abbrev pub pay_id : PayCheck → String
pay_id pay_001 = "RS-PAY-001"
pay_id pay_002 = "RS-PAY-002"
pay_id pay_003 = "RS-PAY-003"
pay_id pay_004 = "RS-PAY-004"
pay_id sec_001 = "RS-SEC-001"
pay_id sec_002 = "RS-SEC-002"
pay_id hs_008 = "RS-HS-008"
pay_id hs_009 = "RS-HS-009"

abbrev titles : PayCheck → String
titles pay_001 = "Valid funded payment is accepted and the resource delivered"
titles pay_002 = "Success carries a valid PAYMENT-RESPONSE settlement"
titles pay_003 = "Settlement network and payer match the payment"
titles pay_004 = "Settlement transaction proves the expected on-chain transfer"
titles sec_001 = "Replaying a settled payment is rejected (nonce reuse)"
titles sec_002 = "Concurrent settle of one payment yields at most one success (race)"
titles hs_008 = "Paid 200 response is not shared-cacheable"
titles hs_009 = "EXTENSION-RESPONSES is never forwarded to the buyer"

-- In the order of PAY_CHECK_IDS.
abbrev pub pay_checks : List PayCheck
pay_checks = pay_001 ∷ pay_002 ∷ pay_003 ∷ pay_004 ∷ sec_001 ∷ sec_002 ∷ hs_008 ∷ hs_009 ∷ []

-- `_pay_severity`
unfoldable pub pay_severity : PayCheck → Severity
pay_severity pay_004 = major
pay_severity hs_008 = minor
pay_severity hs_009 = major
pay_severity _ = critical

-- The severity under which the flow grades the check.
abbrev graded_severity : PayCheck → Severity
graded_severity pay_003 = major
graded_severity pay_004 = major
graded_severity hs_008 = minor
graded_severity hs_009 = major
graded_severity _ = critical

abbrev pub result : PayCheck → Severity → Status → String → Option ReasonCode → CheckResult
result c severity status detail code = record {
  check_id = pay_id c;
  title = titles c;
  severity = severity;
  spec_ref = "x402-specification-v2.md §6.1.3";
  status = status;
  detail = detail;
  reason_code = code;
}

-- `_result` of a check that the flow grades
abbrev pub graded : PayCheck → Status → String → CheckResult
graded c status detail = result c (graded_severity c) status detail none

abbrev pub pending_result : PayCheck → String → CheckResult
pending_result c detail =
    result c (graded_severity c) skip detail (some ReasonCode.settlement_pending)

abbrev pub ungraded : Status → String → List CheckResult
ungraded status detail = map (λ c. result c (pay_severity c) status detail none) pay_checks

-- What the flow takes from its context, with the library, the clock and the nonces that it draws.
-- `send` is the endpoint, by the payments before; `is_digit` is `str.isdigit` of a character, `repr` is `repr` of a text, `null_repr` of the
-- requirement's value, and `exc` of an exception that is raised.
pub record PaymentContext : Type 0 where
  pub resource_url : String
  pub requirements : Fields
  pub extensions : Fields
  pub challenge_headers : Headers
  pub send : List PaymentPayload → PaymentPayload → ActiveResponse
  pub lib : Library
  pub is_digit : ℕ → Bool
  pub now : ℕ
  pub nonce : String
  pub race_now : ℕ
  pub race_nonce : String
  pub repr : String → String
  pub repr_of : Option Json → String
  pub exc : String

-- The chain behind `rpc_url`: a call of a token's contract with data, which gives the digits of the
-- bytes that it returns or fails, and the look-up of a receipt.
pub record Chain : Type 0 where
  pub call : String → String → Option String
  pub look_up : String → Lookup

module _ (ctx : PaymentContext) where
  abbrev pub text_of : String → String
  text_of key = elim (get ctx.requirements key) [ none ↦ "" | some j ↦ str_of ctx.lib j ]

  abbrev int_or_zero : Option ℤ → ℤ
  int_or_zero none = pos 0
  int_or_zero (some z) = z

  -- `int(requirements.get("amount", 0))`, where a TypeError or a ValueError gives 0
  abbrev pub needed : ℤ
  needed = elim (get ctx.requirements "amount") [
    | none ↦ pos 0
    | some j ↦ int_or_zero (int_value ctx.lib j)
  ]

  -- `int(raw.hex(), 16) if raw else 0`; the hexadecimal digits of bytes read the same behind `0x`
  abbrev balance_of : Option String → Option ℕ
  balance_of none = none
  balance_of (some digits) =
      if digits == "" then some 0 else int_base16 ctx.lib.unicode (fstring ("0x" ∷ digits ∷ []))

  unfoldable pub read_token_balance : Chain → String → String → Option ℕ
  unfolding int_base16
  read_token_balance chain token owner =
      balance_of
        (chain.call token (fstring ("0x70a08231" ∷ padded (without_0x (ctx.lib.lower owner)) ∷ [])))

  abbrev pub is_below : ℕ → ℤ → Bool
  is_below b (pos n) = ltb b n
  is_below b (negsuc n) = false

  abbrev pub judge_balance : Option ℕ → Option (Status × String)
  judge_balance none =
      some (
        error, "unable to read signer token balance; RPC preflight failed closed (no payment sent)",
      )
  judge_balance (some balance) =
      if is_below balance needed
      then some (
        skip,
        fstring (
            "insufficient signer balance: have "
            ∷ decimal balance
            ∷ ", need "
            ∷ decimal_int needed
            ∷ " (no payment sent)"
            ∷ []),
      )
      else none

  -- What keeps the payment from being sent.
  unfoldable pub preflight : Option Chain → Option (Status × String)
  unfolding read_token_balance get
  preflight none = none
  preflight (some chain) =
      if is_nonpositive needed
      then some
          (error, "invalid required amount; RPC payment preflight failed closed (no payment sent)")
      else judge_balance (read_token_balance chain (text_of "asset") ctx.lib.address)
