-- ===== src/Checks/Facilitator/Evaluate.antt =====
-- `evaluate_facilitator`: the loop over the checks of a facilitator.
pub mod Match
use x402_conformance.Prelude.{
  String, Bool, true, false, Option, none, some, List, [], ◌∷◌, ◌++◌, ◌==◌, string_eq, ◌&&◌,
  if◌then◌else◌, fstring,
}
use x402_conformance.Probe.{member}
use x402_conformance.Checks.Base.{
  Status, pass, fail, skip, error, Severity, ReasonCode, CheckResult, status_eq,
}
use x402_conformance.Checks.Facilitator.{
  FaState, Call, Outcome, done, http_error, crashed, continue, return, ◌>>=◌,
}

-- `_FaCheck`
pub record FaCheck : Type 0 where
  pub check_id : String
  pub title : String
  pub severity : Severity
  pub spec_ref : String
  pub func : Call (Status × String)

abbrev pub result_of : FaCheck → Status → String → Option ReasonCode → CheckResult
result_of check status detail code = record {
  check_id = check.check_id;
  title = check.title;
  severity = check.severity;
  spec_ref = check.spec_ref;
  status = status;
  detail = detail;
  reason_code = code;
}

-- The reason code of a result, from the marks that the checks left in the context.
unfoldable pub reason_code_of : FaState → String → Status → Option ReasonCode
reason_code_of s check_id status =
    if member check_id s.absent_checks
    then some ReasonCode.endpoint_absent
    else if member check_id s.noncanonical_checks && status == pass
    then some ReasonCode.noncanonical_reason
    else none

abbrev pub labelled : FaCheck → Status → String → Call CheckResult
labelled check status detail s =
    (done (result_of check status detail (reason_code_of s check.check_id status)), s)

abbrev pub finish_check :
    FaCheck → Outcome (Status × String) × FaState → Outcome CheckResult × FaState
finish_check check (done (status, detail), s) = labelled check status detail s
finish_check check (http_error e, s) = (http_error e, s)
finish_check check (crashed exc, s) =
    labelled check error (fstring ("check crashed (suite bug): " ∷ exc ∷ [])) s

unfoldable pub run_fa_check : FaCheck → Call CheckResult
unfolding reason_code_of
run_fa_check check s = finish_check check (check.func s)

unfoldable pub run_fa_checks : List FaCheck → Call (List CheckResult)
unfolding run_fa_check
run_fa_checks [] = return []
run_fa_checks (check ∷ checks) = do
  result ← run_fa_check check
  results ← run_fa_checks checks
  return (result ∷ results)

abbrev pub unreachable_results : List FaCheck → List CheckResult
unreachable_results [] = []
unreachable_results (check ∷ checks) =
    result_of check skip "facilitator unreachable" none ∷ unreachable_results checks

-- Without a context every check is skipped.
unfoldable pub evaluate_facilitator : List FaCheck → Option FaState → Outcome (List CheckResult)
unfolding run_fa_checks
evaluate_facilitator registry none = done (unreachable_results registry)
evaluate_facilitator registry (some ctx) = (run_fa_checks registry ctx).0
