-- ===== src/Report/Verdict.antt =====
-- The exit code of report.py against its specification, and the counts of the summary.
use x402_conformance.Prelude.{◌+◌, ◌≤◌, ◌≡◌, ◌↔◌, List, [], ◌∷◌, arith, Any, count_if, length}
use x402_conformance.Checks.Base.{pass, fail, skip, error, ReasonCode, CheckResult}
use x402_conformance.Report.{has_status, summarize, assessment_exit_code}
use x402_conformance.Report.Spec.{
  Gates, Carries, Judged, VersionPassed, any-gates_iff, any-carries_iff, nothing_applied_iff,
  version_not_passed_iff,
}

-- Each result is counted once.
count-by-status :
    (rs : List CheckResult)
    → count_if (has_status pass) rs
        + count_if (has_status fail) rs
        + count_if (has_status skip) rs
        + count_if (has_status error) rs
      ≡ length rs
count-by-status [] = omega arith
count-by-status (r ∷ rs) = ground (arith, count-by-status rs)

-- The four counts of the summary add up to its total, which is the number of results.
pub summarize_total :
    (rs : List CheckResult)
    → ((summarize rs).passed
          + (summarize rs).failed
          + (summarize rs).skipped
          + (summarize rs).errors
        ≡ (summarize rs).total)
      × ((summarize rs).total ≡ length rs)
unfolding summarize
summarize_total rs = (count-by-status rs, omega arith)

-- What lets a run be certified.
pub record Conformant (rs : List CheckResult) : Type 0 where
  pub no_gating : Any Gates rs → ⊥
  pub judged : Any Judged rs
  pub none_deferred : Any (Carries ReasonCode.deferred_pending_upstream) rs → ⊥
  pub none_pending : Any (Carries ReasonCode.settlement_pending) rs → ⊥
  pub version_passed : VersionPassed rs

module _ (rs : List CheckResult) where
  -- The exit code is 0, conformant, exactly when nothing gates, some result is not a SKIP, no
  -- judgement was deferred, no settlement is pending, and the version check passed if it ran.
  pub assessment-Conformant_iff : (assessment_exit_code rs ≡ 0) ↔ Conformant rs
  unfolding assessment_exit_code
  assessment-Conformant_iff = ground (
    arith,
    any-gates_iff rs,
    nothing_applied_iff rs,
    any-carries_iff ReasonCode.deferred_pending_upstream rs,
    any-carries_iff ReasonCode.settlement_pending rs,
    version_not_passed_iff rs,
  )

  -- The exit code is 1, not conformant, exactly when some result is a suite error or a failure that
  -- is critical or major.
  pub assessment_failed_iff : (assessment_exit_code rs ≡ 1) ↔ Any Gates rs
  unfolding assessment_exit_code
  assessment_failed_iff = ground (arith, any-gates_iff rs)

  pub assessment-le-two : assessment_exit_code rs ≤ 2
  unfolding assessment_exit_code
  assessment-le-two = ground arith
