-- ===== src/Report/Reason.antt =====
-- The machine-readable reason of an inconclusive run (report.py) is true of its results.
use x402_conformance.Prelude.{◌≡◌, ◌≢◌, ◌↔◌, Option, none, some, List, arith, Any}
use x402_conformance.Checks.Base.{ReasonCode, InconclusiveReason, CheckResult}
use x402_conformance.Report.{
  assessment_exit_code, inconclusive_reason_from_results, assessment_reason,
}
use x402_conformance.Report.Spec.{
  Carries, Judged, VersionPassed, any-carries_iff, nothing_applied_iff, version_not_passed_iff,
}

-- What each reason says of the results. The first two are the callers' alone.
abbrev pub Explains : InconclusiveReason → List CheckResult → Type 0
Explains InconclusiveReason.unreachable rs = ⊥
Explains InconclusiveReason.invalid_input rs = ⊥
Explains InconclusiveReason.not_x402_v2 rs = ¬ VersionPassed rs
Explains InconclusiveReason.no_checks_applicable rs = ¬ Any Judged rs
Explains InconclusiveReason.endpoint_absent rs = Any (Carries ReasonCode.endpoint_absent) rs
Explains InconclusiveReason.deferred_pending_upstream rs =
    Any (Carries ReasonCode.deferred_pending_upstream) rs
Explains InconclusiveReason.settlement_pending rs = Any (Carries ReasonCode.settlement_pending) rs

module _ (rs : List CheckResult) where
  -- In a run with exit code 2 the reason derived from the results is true of them.
  pub reason-Explains :
      assessment_exit_code rs ≡ 2 → Explains (inconclusive_reason_from_results rs) rs
  unfolding assessment_exit_code inconclusive_reason_from_results
  reason-Explains h = ground (
    arith,
    nothing_applied_iff rs,
    any-carries_iff ReasonCode.endpoint_absent rs,
    any-carries_iff ReasonCode.deferred_pending_upstream rs,
    any-carries_iff ReasonCode.settlement_pending rs,
    version_not_passed_iff rs,
  )

  -- A reason is given exactly in a run with exit code 2, and an override is passed on as it is.
  pub assessment_reason_iff :
      (override : Option InconclusiveReason)
      → ((assessment_reason rs override ≡ none) ↔ (assessment_exit_code rs ≢ 2))
        × ((o : InconclusiveReason)
            → override ≡ some o
            → assessment_exit_code rs ≡ 2
            → assessment_reason rs override ≡ some o)
  unfolding assessment_reason
  assessment_reason_iff override = (ground arith, λ o e h. ground arith)
