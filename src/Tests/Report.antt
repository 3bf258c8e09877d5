-- ===== src/Tests/Report.antt =====
-- report.py and checks/base.py on short runs.
use mathlib.Core.List.{Perm, Permᴰ}
use x402_conformance.Prelude.{
  String, ◌≡◌, ◌≢◌, ◌↔◌, refl, sym, none, some, [], ◌∷◌, Any, arith, string_eq,
}
use x402_conformance.Checks.Base.{
  Severity, critical, major, Status, pass, fail, skip, CheckResult, register_all,
  append_unique_check,
}
use x402_conformance.Report.{assessment_exit_code, inconclusive_reason_from_results}
use x402_conformance.Report.Spec.{Gates}
use x402_conformance.Report.Verdict.{Conformant, assessment-Conformant_iff, assessment_failed_iff}
use x402_conformance.Report.Reason.{Explains, reason-Explains}
use x402_conformance.Report.Order.{assessment-perm}

abbrev result : String → Severity → Status → CheckResult
result id severity status = record {
  check_id = id;
  title = "";
  severity = severity;
  spec_ref = "";
  status = status;
  detail = "";
  reason_code = none;
}

abbrev version : CheckResult
version = result "RS-PR-001" critical pass

abbrev leak : CheckResult
leak = result "RS-NEG-003" critical fail

abbrev skipped : CheckResult
skipped = result "RS-HS-002" major skip

conformant_run : assessment_exit_code (version ∷ skipped ∷ []) ≡ 0
unfolding assessment_exit_code
conformant_run = refl

failed_run : assessment_exit_code (version ∷ leak ∷ []) ≡ 1
unfolding assessment_exit_code
failed_run = refl

skipped_run : assessment_exit_code (skipped ∷ []) ≡ 2
unfolding assessment_exit_code
skipped_run = refl

assessment-Conformant_iff_example :
    (assessment_exit_code (version ∷ skipped ∷ []) ≡ 0) ↔ Conformant (version ∷ skipped ∷ [])
assessment-Conformant_iff_example = assessment-Conformant_iff (version ∷ skipped ∷ [])

assessment_failed_iff_example :
    (assessment_exit_code (version ∷ leak ∷ []) ≡ 1) ↔ Any Gates (version ∷ leak ∷ [])
assessment_failed_iff_example = assessment_failed_iff (version ∷ leak ∷ [])

reason-Explains_example : Explains (inconclusive_reason_from_results (skipped ∷ [])) (skipped ∷ [])
reason-Explains_example = reason-Explains (skipped ∷ []) skipped_run

ids≢ : ◌≢◌ {A = String} "RS-NEG-003" "RS-PR-001"
ids≢ h = ground (arith, string_eq.beq_iff "RS-NEG-003" "RS-PR-001")

swapped : Perm (version ∷ leak ∷ []) (leak ∷ version ∷ [])
swapped = ∣ Permᴰ.swap refl refl ∣₁

assessment-perm_example :
    assessment_exit_code (version ∷ leak ∷ []) ≡ assessment_exit_code (leak ∷ version ∷ [])
assessment-perm_example =
    assessment-perm ((ids≢, tt), (tt, tt)) ((λ h. ids≢ (sym h), tt), (tt, tt)) swapped

registered :
    register_all (λ (id : String). id) [] ("RS-HS-001" ∷ "RS-HS-002" ∷ [])
    ≡ some ("RS-HS-001" ∷ "RS-HS-002" ∷ [])
unfolding register_all append_unique_check
registered = refl
