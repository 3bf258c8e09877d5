-- ===== src/Checks/Negative/Probes/Rejecting.antt =====
-- RS-SEC-003 of checks/negative.py: its own branches against the shared verdict.
use x402_conformance.Prelude.{◌≡◌, ◌↔◌, ◌∙◌, sym, [], ◌∷◌, arith}
use x402_conformance.Active.Response.{ActiveResponse, served_resource, endpoint_crashed, settled_ok}
use x402_conformance.Checks.Base.{pass}
use x402_conformance.Checks.Negative.{assert_rejected}
use x402_conformance.Checks.Negative.Verdict.{Rejected, assert_rejected_iff}
use x402_conformance.Checks.Negative.Probes.{ActiveContext}
use x402_conformance.Checks.Negative.Probes.Foreign.{judge_foreign}

-- The branches that RS-SEC-003 has of its own change the detail alone: its status is that of the
-- shared verdict, so it passes exactly on a clean rejection with 402.
pub judge_foreign_lem :
    (ctx : ActiveContext) (r : ActiveResponse)
    → ((judge_foreign ctx r).0 ≡ (assert_rejected ctx.repr r (402 ∷ [])).0)
      × (((judge_foreign ctx r).0 ≡ pass) ↔ Rejected r (402 ∷ []))
unfolding judge_foreign assert_rejected endpoint_crashed served_resource settled_ok
judge_foreign_lem ctx r =
    let same : (judge_foreign ctx r).0 ≡ (assert_rejected ctx.repr r (402 ∷ [])).0 = ground arith in
    let verdict = (assert_rejected_iff ctx.repr r (402 ∷ [])).0 in
    (same, (λ h. verdict.0 (sym same ∙ h), λ h. same ∙ verdict.1 h))
