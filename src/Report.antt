-- ===== src/Report.antt =====
-- report.py: the verdict of a run, and what the reports derive from it.
pub mod Spec
pub mod Verdict
pub mod Reason
pub mod Order
use x402_conformance.Prelude.{
  ℕ, String, Bool, true, false, Option, none, some, List, [], ◌∷◌, ◌&&◌, ◌||◌, not, any, all, first,
  count_if, length, ◌==◌, nat_eq, string_eq, if◌then◌else◌,
}
use x402_conformance.Checks.Base.{
  Severity, critical, major, minor, Status, pass, fail, skip, error, status_eq, ReasonCode,
  has_code, CheckResult, InconclusiveReason,
}

pub record Summary : Type 0 where
  pub total : ℕ
  pub passed : ℕ
  pub failed : ℕ
  pub skipped : ℕ
  pub errors : ℕ

abbrev pub has_status : Status → CheckResult → Bool
has_status s r = r.status == s

unfoldable pub summarize : List CheckResult → Summary
summarize results = record {
  total = length results;
  passed = count_if (has_status pass) results;
  failed = count_if (has_status fail) results;
  skipped = count_if (has_status skip) results;
  errors = count_if (has_status error) results;
}

-- `r.severity in _GATING`
abbrev pub is_gating : Severity → Bool
is_gating critical = true
is_gating major = true
is_gating minor = false

-- `r.status in _BAD`
abbrev pub is_bad : Status → Bool
is_bad fail = true
is_bad error = true
is_bad _ = false

abbrev pub gates : CheckResult → Bool
gates r = r.status == error || (r.status == fail && is_gating r.severity)

unfoldable pub exit_code : List CheckResult → ℕ
exit_code results = if any gates results then 1 else 0

abbrev pub carries : ReasonCode → CheckResult → Bool
carries code r = has_code r.reason_code code

abbrev pub is_empty {ℓ} : {A : Type ℓ} → List A → Bool
is_empty [] = true
is_empty (_ ∷ _) = false

abbrev pub nothing_applied : List CheckResult → Bool
nothing_applied results = is_empty results || all (has_status skip) results

abbrev pub is_version_check : CheckResult → Bool
is_version_check r = r.check_id == "RS-PR-001"

-- `version is not None and version.status is not Status.PASS`
abbrev pub version_not_passed : Option CheckResult → Bool
version_not_passed none = false
version_not_passed (some r) = not (r.status == pass)

unfoldable pub assessment_exit_code : List CheckResult → ℕ
unfolding exit_code
assessment_exit_code results =
    let gating = exit_code results in
    if not (gating == 0)
    then gating
    else if nothing_applied results
    then 2
    else if any (carries ReasonCode.deferred_pending_upstream) results
    then 2
    else if any (carries ReasonCode.settlement_pending) results
    then 2
    else if version_not_passed (first is_version_check results)
    then 2
    else 0

unfoldable pub inconclusive_reason_from_results : List CheckResult → InconclusiveReason
inconclusive_reason_from_results results =
    if any (carries ReasonCode.endpoint_absent) results
    then InconclusiveReason.endpoint_absent
    else if any (carries ReasonCode.deferred_pending_upstream) results
    then InconclusiveReason.deferred_pending_upstream
    else if any (carries ReasonCode.settlement_pending) results
    then InconclusiveReason.settlement_pending
    else if nothing_applied results
    then InconclusiveReason.no_checks_applicable
    else InconclusiveReason.not_x402_v2

-- `override or _inconclusive_reason_from_results(results)`
abbrev pub or_reason : Option InconclusiveReason → InconclusiveReason → InconclusiveReason
or_reason none r = r
or_reason (some o) r = o

unfoldable pub assessment_reason :
    List CheckResult → Option InconclusiveReason → Option InconclusiveReason
unfolding assessment_exit_code inconclusive_reason_from_results
assessment_reason results override =
    if not (assessment_exit_code results == 2)
    then none
    else some (or_reason override (inconclusive_reason_from_results results))
