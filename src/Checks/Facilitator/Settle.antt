-- ===== src/Checks/Facilitator/Settle.antt =====
-- FA-SET-001 to FA-SET-004: the verdicts on payments that are posted to /settle. `verify_tx` is
-- `_verify_tx_onchain` of a transaction, with the asset, the addresses and the amount of the
-- requirements, whose conversion may raise.
pub mod Flow
pub mod Sending
pub mod Order
pub mod Double
pub mod Chain
use x402_conformance.Prelude.{
  ℕ, String, Bool, true, false, Option, none, some, List, [], ◌∷◌, ◌++◌, map, ◌==◌, nat_eq,
  string_eq, ◌&&◌, ◌||◌, not, is_none, any, keep, length, if◌then◌else◌, fstring, decimal,
}
use x402_conformance.Json.{Json, Fields, get, set_field, is_text}
use x402_conformance.Models.{SettlementResponse, settlement_of_json, is_pending}
use x402_conformance.Active.Response.{Headers}
use x402_conformance.Payload.{PaymentPayload}
use x402_conformance.Probe.{Loaded}
use x402_conformance.Checks.Base.{
  Status, pass, fail, skip, Severity, critical, major, minor, ReasonCode, CheckResult, Ran,
  returned, raised,
}
use x402_conformance.Checks.Facilitator.{
  FaState, Client, Call, Outcome, done, http_error, crashed, post, send, continue, return, crash,
  ◌>>=◌, is_absent, absence_reason,
}
use x402_conformance.Checks.Facilitator.Verify.{Answer, grade_answer, or_text, built}

-- The four checks, and what `mk` knows of each.
pub data SettleCheck : Type 0 where
  set_001 set_002 set_003 set_004 : SettleCheck

abbrev pub settle_id : SettleCheck → String
settle_id set_001 = "FA-SET-001"
settle_id set_002 = "FA-SET-002"
settle_id set_003 = "FA-SET-003"
settle_id set_004 = "FA-SET-004"

abbrev settle_title : SettleCheck → String
settle_title set_001 = "/settle of a valid payment succeeds with a tx hash"
settle_title set_002 = "/settle of an invalid payment fails with empty tx"
settle_title set_003 = "Double-settle of the same payment is rejected (nonce reuse)"
settle_title set_004 = "A settlement_pending response carries the broadcast transaction"

abbrev settle_severity : SettleCheck → Severity
settle_severity set_001 = major
settle_severity set_002 = major
settle_severity set_003 = critical
settle_severity set_004 = minor

abbrev settle_ref : SettleCheck → String
settle_ref set_001 = "x402-specification-v2.md §7.2"
settle_ref set_002 = "x402-specification-v2.md §7.2"
settle_ref set_003 = "x402-specification-v2.md §10.1"
settle_ref set_004 = "x402-specification-v2.md §5.3.2, §9 settlement_pending"

abbrev pub mk_coded : SettleCheck → Status → String → Option ReasonCode → CheckResult
mk_coded c status detail code = record {
  check_id = settle_id c;
  title = settle_title c;
  severity = settle_severity c;
  spec_ref = settle_ref c;
  status = status;
  detail = detail;
  reason_code = code;
}

abbrev pub mk : SettleCheck → Status → String → CheckResult
mk c status detail = mk_coded c status detail none

abbrev pub all_skipped : String → Option ReasonCode → List CheckResult
all_skipped detail code =
    map (λ c. mk_coded c skip detail code) (set_001 ∷ set_002 ∷ set_003 ∷ set_004 ∷ [])

-- What is known after the first answer and its retry: the pending first answer, the answer that
-- counts, the verdict of FA-SET-003 if the retry decided it, and all answers.
pub record Stage : Type 0 where
  pub first_pending : Option SettlementResponse
  pub r1 : Option SettlementResponse
  pub decided : Option CheckResult
  pub answers : List SettlementResponse

-- [r] for an answer that is there
abbrev pub answered : Option SettlementResponse → List SettlementResponse
answered none = []
answered (some r) = r ∷ []

-- `first_pending is not None and bool(first_pending.transaction)`
abbrev pub names_broadcast : Option SettlementResponse → Bool
names_broadcast none = false
names_broadcast (some f) = not (f.transaction == "")

-- `repr` is `repr` of a text or None.
module _ (repr : Option String → String) where
  -- FA-SET-003, as far as the retry of a pending payment decides it
  unfoldable pub judge_retry : SettlementResponse → Answer SettlementResponse → Option CheckResult
  judge_retry first a = elim a.response [
    | none ↦ some (
        mk set_003 fail
          (or_text a.error "retry after settlement_pending did not return a valid response"))
    | some retry ↦
        if not (first.transaction == "")
          && not (retry.transaction == "" || retry.transaction == first.transaction)
        then some (
            mk set_003 fail (
              fstring (
                "retry after settlement_pending reported a different transaction ("
                ∷ repr (some retry.transaction)
                ∷ " vs "
                ∷ repr (some first.transaction)
                ∷ ") — the facilitator re-broadcast instead of reconciling (double-settle risk)"
                ∷ [])))
        else none
  ]

  abbrev pub retried : SettlementResponse → Answer SettlementResponse → Stage
  retried first a = record {
    first_pending = some first;
    r1 = a.response;
    decided = judge_retry first a;
    answers = first ∷ answered a.response;
  }

  abbrev pub settled_once : Option SettlementResponse → Stage
  settled_once r = record { first_pending = none; r1 = r; decided = none; answers = answered r }

  -- FA-SET-003 for a second settlement of a payment that was settled
  unfoldable pub judge_again :
      Option SettlementResponse → SettlementResponse → Answer SettlementResponse → CheckResult
  judge_again first_pending r1 a =
      let reconciled = names_broadcast first_pending in
      elim a.response [
        | none ↦ mk set_003 fail (or_text a.error "second /settle did not return a valid response")
        | some r3 ↦
            if r3.success && reconciled && r3.transaction == r1.transaction
            then mk set_003 pass (
                fstring (
                  "repeat /settle after settlement_pending reconciled to the same transaction "
                  ∷ repr (some r3.transaction)
                  ∷ " (idempotent, no second broadcast)"
                  ∷ []))
            else if r3.success
            then mk set_003 fail
                "second settle of the same payment succeeded — nonce reuse not prevented"
            else mk set_003 pass
                (fstring ("double-settle rejected (reason " ∷ repr r3.error_reason ∷ ")" ∷ []))
      ]

  abbrev pub again :
      Option SettlementResponse
      → SettlementResponse
      → Answer SettlementResponse
      → CheckResult × List SettlementResponse
  again first_pending r1 a = (judge_again first_pending r1 a, answered a.response)

  -- FA-SET-003 where no second settlement is asked for
  abbrev pub not_again : Option SettlementResponse → CheckResult
  not_again none = mk set_003 skip "first settle did not succeed"
  not_again (some r1) =
      if is_pending r1
      then mk_coded set_003 skip
          "first settle is still pending after one retry; a double-settle cannot be judged until it is terminal"
          (some ReasonCode.settlement_pending)
      else mk set_003 skip "first settle did not succeed"

  abbrev state_text : SettlementResponse → String
  state_text r =
      if is_pending r then "pending" else fstring ("failed with " ∷ repr r.error_reason ∷ [])

  -- FA-SET-002
  unfoldable pub judge_cheap : Answer SettlementResponse → CheckResult
  unfolding is_pending
  judge_cheap a = elim a.response [
    | none ↦ mk set_002 fail (or_text a.error "/settle did not return a valid response")
    | some r2 ↦
        if r2.success
        then mk set_002 fail "/settle succeeded for an invalid payment"
        else if not (r2.transaction == "")
        then mk set_002 fail (
            fstring (
              "the facilitator broadcast an underpaying authorization ("
              ∷ state_text r2
              ∷ ", transaction "
              ∷ repr (some r2.transaction)
              ∷ ") instead of rejecting it before broadcast"
              ∷ []))
        else mk set_002 pass
            (fstring ("correctly failed (reason " ∷ repr r2.error_reason ∷ ")" ∷ []))
  ]

  -- FA-SET-001 for an answer, up to the proof on the chain
  abbrev pub prefix : Option SettlementResponse → String
  prefix none = ""
  prefix (some f) = "after settlement_pending, "

  module _ (has_rpc : Bool) (verify_tx : String → Ran (Status × String))
      (requirements : Fields) where
    abbrev pub proved : Ran (Status × String) → Call CheckResult
    proved (returned (status, detail)) = return (mk set_001 status detail)
    proved (raised exc) = crash exc

    abbrev pub judge_r1 :
        Option String → Option SettlementResponse → Option SettlementResponse → Call CheckResult
    judge_r1 r1_error first_pending none =
        return (mk set_001 fail (or_text r1_error "/settle did not return a valid response"))
    judge_r1 r1_error first_pending (some r1) =
        if is_pending r1
        then return (
            mk_coded set_001 skip
              (fstring (
                "settlement_pending (transaction "
                ∷ repr (some r1.transaction)
                ∷ "), still pending after one retry — the broadcast may yet confirm; reconcile on chain before judging"
                ∷ []))
              (some ReasonCode.settlement_pending))
        else if not r1.success
        then return (
            mk set_001 fail (
              fstring
                (prefix first_pending ∷ "valid /settle failed: " ∷ repr r1.error_reason ∷ [])))
        else if not (is_text (get requirements "network") r1.network)
        then return (mk set_001 fail "settlement network does not match requirement")
        else if not has_rpc
        then return (mk set_001 skip "settlement response received but no RPC proof is available")
        else proved (verify_tx r1.transaction)

    unfoldable pub judge_first : Option String → Stage → Call CheckResult
    unfolding is_pending get
    judge_first r1_error st = judge_r1 r1_error st.first_pending st.r1

-- FA-SET-004
unfoldable pub judge_pending : List SettlementResponse → CheckResult
unfolding is_pending
judge_pending answers = elim (keep is_pending answers) [
  | [] ↦ mk set_004 skip "no settlement_pending answer was observed"
  | p ∷ ps ↦
      if any (λ a. a.transaction == "") (p ∷ ps)
      then mk set_004 fail
          "settlement_pending with an empty transaction — the caller has no broadcast to reconcile against and can only retry blind, which is how a payment settles twice"
      else mk set_004 pass (
          fstring (
            decimal (length (p ∷ ps))
            ∷ " settlement_pending answer(s), each naming its broadcast"
            ∷ []))
]
