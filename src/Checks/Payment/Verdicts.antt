-- ===== src/Checks/Payment/Verdicts.antt =====
-- The verdicts of the payment flow on the answers that it gets.
use x402_conformance.Prelude.{
  String, Bool, Option, none, some, List, [], ◌∷◌, ◌++◌, ◌==◌, string_eq, ◌&&◌, ◌||◌, not, is_none,
  if◌then◌else◌, fstring, decimal, join, contains,
}
use x402_conformance.Models.{SettlementResponse, is_pending, is_falsy}
use x402_conformance.Active.Response.{Headers, header, ActiveResponse, served_resource}
use x402_conformance.Checks.Base.{Status, pass, fail, skip, CheckResult, Ran, returned, raised}
use x402_conformance.Checks.Handshake.{positive_max_age}
use x402_conformance.Checks.Payment.{
  pay_001, pay_002, hs_008, hs_009, graded, pending_result, PaymentContext,
}

-- The settlement that succeeded.
abbrev pub succeeded : Option SettlementResponse → Option SettlementResponse
succeeded none = none
succeeded (some s) = if s.success then some s else none

abbrev pub pending_of : Option SettlementResponse → Option SettlementResponse
pending_of none = none
pending_of (some s) = if is_pending s then some s else none

module _ (ctx : PaymentContext) where
  abbrev repr_option : Option String → String
  repr_option none = "None"
  repr_option (some s) = ctx.repr s

  abbrev reason_text : Option SettlementResponse → String
  reason_text none = ""
  reason_text (some s) =
      if is_falsy s.error_reason
      then ""
      else fstring (", reason " ∷ repr_option s.error_reason ∷ [])

  abbrev not_served : ActiveResponse → Option SettlementResponse → CheckResult
  not_served resp (some pending) = pending_result pay_001 (
      fstring (
        "status "
        ∷ decimal resp.status_code
        ∷ ": settlement_pending for transaction "
        ∷ ctx.repr pending.transaction
        ∷ " — the payment may still confirm; reconcile it on chain before retrying, or the retry can pay twice"
        ∷ []))
  not_served resp none = graded pay_001 fail (
      fstring (
        "valid payment was not accepted (status "
        ∷ decimal resp.status_code
        ∷ reason_text resp.settlement
        ∷ ")"
        ∷ []))

  -- RS-PAY-001
  unfoldable pub judge_delivery : ActiveResponse → CheckResult
  unfolding served_resource is_pending
  judge_delivery resp =
      if served_resource resp
      then graded pay_001 pass (fstring ("status " ∷ decimal resp.status_code ∷ []))
      else not_served resp (pending_of resp.settlement)

  -- `_evaluate_paid_cacheability`; its `_positive_max_age` is that of checks/handshake.py
  unfoldable pub judge_cacheability : ActiveResponse → Ran CheckResult
  unfolding served_resource header positive_max_age
  judge_cacheability resp =
      let cache_control =
        ctx.lib.lower (elim (header resp.headers "cache-control") [ none ↦ "" | some s ↦ s ]) in
      let cacheable = graded hs_008 fail (
        fstring (
          "paid 200 is shared-cacheable (Cache-Control: "
          ∷ ctx.repr cache_control
          ∷ ") — a CDN or proxy can serve the resource this client paid for to clients who did not"
          ∷ [])) in
      if not (served_resource resp)
      then returned (graded hs_008 skip "no paid response to inspect")
      else if cache_control == ""
      then returned (
          graded hs_008 pass
            "paid 200 carries no Cache-Control; explicit 'private' recommended (a shared cache may store and reserve it to an unpaid client)")
      else if contains cache_control "no-store" || contains cache_control "private"
      then returned (graded hs_008 pass "")
      else if contains cache_control "public"
      then returned cacheable
      else elim (positive_max_age ctx.lib.unicode ctx.is_digit cache_control) [
        | none ↦ raised ctx.exc
        | some found ↦ if found then returned cacheable else returned (graded hs_008 pass "")
      ]

  abbrev leak_result : Status → String → CheckResult
  leak_result status detail = record (graded hs_009 status detail) {
    spec_ref = "x402-specification-v2.md §7.2.1 + bazaar.md";
  }

  abbrev carries : Headers → Bool
  carries headers = not (is_none (header headers "extension-responses"))

  abbrev paid_response : ActiveResponse → String
  paid_response resp = fstring ("the paid response (HTTP " ∷ decimal resp.status_code ∷ ")" ∷ [])

  abbrev judge_leaks : ActiveResponse → List String → CheckResult
  judge_leaks resp (l ∷ leaked) = leak_result fail (
      fstring (
        "EXTENSION-RESPONSES forwarded to the buyer on "
        ∷ join " and " (l ∷ leaked)
        ∷ " — it is the facilitator's sidechannel to the resource server and is never forwarded"
        ∷ []))
  judge_leaks resp [] =
      if not (is_none resp.transport_error)
      then leak_result skip "the paid request got no response to inspect"
      else leak_result pass (
          fstring (
            "absent on the 402 and the paid response (HTTP " ∷ decimal resp.status_code ∷ ")" ∷ []))

  -- `_evaluate_extension_responses_leak`
  unfoldable pub judge_leak : ActiveResponse → CheckResult
  unfolding header
  judge_leak resp = judge_leaks resp (
      (if carries ctx.challenge_headers then "the unpaid 402" ∷ [] else [])
      ++ (if carries resp.headers then paid_response resp ∷ [] else []))

  abbrev no_hash : String → Bool
  no_hash transaction = transaction == "" || transaction == "0x"

  abbrev pub judge_answer : Option SettlementResponse → CheckResult
  judge_answer none = graded pay_002 fail "no PAYMENT-RESPONSE header on a successful payment"
  judge_answer (some s) =
      if is_pending s && s.transaction == ""
      then graded pay_002 fail
          "settlement_pending with an empty transaction — CORE §5.3.2 requires the broadcast hash, without which the client cannot reconcile"
      else if is_pending s
      then pending_result pay_002 (
          fstring (
            "well-formed settlement_pending for transaction "
            ∷ ctx.repr s.transaction
            ∷ "; the settlement outcome is not known yet"
            ∷ []))
      else if not s.success
      then graded pay_002 fail
          (fstring ("settlement.success is false (reason " ∷ repr_option s.error_reason ∷ ")" ∷ []))
      else if no_hash s.transaction
      then graded pay_002 fail "settlement.success but transaction hash is empty"
      else graded pay_002 pass (fstring ("tx " ∷ s.transaction ∷ []))

  abbrev pub judge_stated : Option String → Option SettlementResponse → CheckResult
  judge_stated none settlement = judge_answer settlement
  judge_stated (some text) settlement =
      if text == "" then judge_answer settlement else graded pay_002 fail text

  -- RS-PAY-002
  unfoldable pub judge_settlement : ActiveResponse → CheckResult
  unfolding is_pending
  judge_settlement resp = judge_stated resp.settlement_error resp.settlement
