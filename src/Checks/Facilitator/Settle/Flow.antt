-- ===== src/Checks/Facilitator/Settle/Flow.antt =====
-- The run of the settlement checks. `build` is `_build_payload`, and `verify_tx` is
-- `_verify_tx_onchain` of a transaction, with the asset, the addresses and the amount of the
-- requirements, whose conversion may raise.
use x402_conformance.Prelude.{
  String, Bool, true, false, Option, none, some, List, [], ◌∷◌, ◌++◌, nat_eq, string_eq,
  if◌then◌else◌,
}
use x402_conformance.Json.{Json, Fields, set_field}
use x402_conformance.Models.{SettlementResponse, settlement_of_json, is_pending}
use x402_conformance.Payload.{PaymentPayload}
use x402_conformance.Probe.{Loaded}
use x402_conformance.Checks.Base.{Status, ReasonCode, CheckResult, Ran}
use x402_conformance.Checks.Facilitator.{
  Client, Call, post, send, return, ◌>>=◌, is_absent, absence_reason,
}
use x402_conformance.Checks.Facilitator.Verify.{Answer, grade_answer, or_text, built}
use x402_conformance.Checks.Facilitator.Settle.{
  all_skipped, Stage, answered, judge_retry, retried, settled_once, judge_again, again, not_again,
  judge_cheap, judge_first, judge_pending,
}

module _ (client : Client) (loads : String → Loaded) (explain : Json → String) where
  unfoldable pub settle : PaymentPayload → Fields → Call (Answer SettlementResponse)
  unfolding send settlement_of_json
  settle payload requirements = do
    (status, headers, body) ← send client (post "/settle" payload requirements)
    grade_answer settlement_of_json explain "/settle" loads status body

module _ (client : Client) (loads : String → Loaded) (explain : Json → String)
    (build : Fields → Ran PaymentPayload) (repr : Option String → String) (has_rpc : Bool)
    (verify_tx : String → Ran (Status × String)) where
  -- A pending first answer is retried once, with the same payment.
  unfoldable pub retry_pending : PaymentPayload → Fields → Option SettlementResponse → Call Stage
  unfolding settle judge_retry is_pending
  retry_pending good requirements none = return (settled_once repr none)
  retry_pending good requirements (some r) =
      if is_pending r
      then settle client loads explain good requirements >>= (λ a. return (retried repr r a))
      else return (settled_once repr (some r))

  abbrev pub unless_decided :
      PaymentPayload
      → Fields
      → Option SettlementResponse
      → Option CheckResult
      → Option SettlementResponse
      → Call (CheckResult × List SettlementResponse)
  unless_decided good requirements first_pending (some result) r1 = return (result, [])
  unless_decided good requirements first_pending none none = return (not_again repr none, [])
  unless_decided good requirements first_pending none (some r1) =
      if r1.success
      then settle client loads explain good requirements
        >>= (λ a. return (again repr first_pending r1 a))
      else return (not_again repr (some r1), [])

  -- A payment that was settled is posted again, unless the retry has decided FA-SET-003.
  unfoldable pub second_settle :
      PaymentPayload → Fields → Stage → Call (CheckResult × List SettlementResponse)
  unfolding settle judge_again is_pending
  second_settle good requirements st =
      unless_decided good requirements st.first_pending st.decided st.r1

  abbrev pub results_of :
      Stage
      → CheckResult
      → CheckResult
      → List SettlementResponse
      → Answer SettlementResponse
      → List CheckResult
  results_of st first second more a =
      first
      ∷ second
      ∷ judge_cheap repr a
      ∷ judge_pending (st.answers ++ more ++ answered a.response)
      ∷ []

  -- The underpaying payment comes last.
  abbrev pub finish_group :
      Fields → Stage → CheckResult → CheckResult × List SettlementResponse → Call (List CheckResult)
  finish_group requirements st first (second, more) = do
    cheap ← built (build (set_field requirements "amount" (Json.str "1")))
    a ← settle client loads explain cheap requirements
    return (results_of st first second more a)

  unfoldable pub settle_group :
      PaymentPayload → Fields → Option String → Stage → Call (List CheckResult)
  unfolding judge_first second_settle judge_cheap judge_pending settle set_field
  settle_group good requirements r1_error st = do
    first ← judge_first repr has_rpc verify_tx requirements r1_error st
    both ← second_settle good requirements st
    finish_group requirements st first both

  -- What follows the first answer.
  abbrev pub after_first :
      PaymentPayload → Fields → Answer SettlementResponse → Call (List CheckResult)
  after_first good requirements a =
      if is_absent a.status
      then return (
          all_skipped (or_text a.error (absence_reason "/settle" a.status))
            (some ReasonCode.endpoint_absent))
      else retry_pending good requirements a.response >>= settle_group good requirements a.error

  -- `requirements` is None also where there is no signer.
  unfoldable pub evaluate_settle : Bool → Option Fields → Call (List CheckResult)
  unfolding settle retry_pending settle_group
  evaluate_settle false requirements =
      return (all_skipped "pass --settle to run /settle tests (moves real funds)" none)
  evaluate_settle true none = return (all_skipped "no --resource requirements / signer" none)
  evaluate_settle true (some requirements) = do
    good ← built (build requirements)
    a ← settle client loads explain good requirements
    after_first good requirements a
