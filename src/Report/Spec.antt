-- ===== src/Report/Spec.antt =====
-- What a verdict of report.py promises, said of the results one by one.
use x402_conformance.Prelude.{
  ◌≡◌, ◌≢◌, ◌⊎◌, ◌↔◌, true, false, some, List, [], ◌∷◌, arith, string_eq, any, all, first, Any,
  any_iff, Decides,
}
use x402_conformance.Checks.Base.{
  minor, fail, skip, error, pass, ReasonCode, CheckResult, has_code_iff,
}
use x402_conformance.Report.{
  gates, carries, nothing_applied, has_status, is_version_check, version_not_passed,
}

-- A suite error, or a failure that is not advisory.
abbrev pub Gates : CheckResult → Type 0
Gates r = (r.status ≡ error) ⊎ ((r.status ≡ fail) × (r.severity ≢ minor))

abbrev pub Carries : ReasonCode → CheckResult → Type 0
Carries code r = r.reason_code ≡ some code

abbrev pub Judged : CheckResult → Type 0
Judged r = r.status ≢ skip

-- The first result of RS-PR-001, if there is one, is a PASS.
abbrev pub VersionPassed : List CheckResult → Type 0
VersionPassed [] = Unit
VersionPassed (r ∷ rs) =
    (r.check_id ≡ "RS-PR-001" → r.status ≡ pass) × (r.check_id ≢ "RS-PR-001" → VersionPassed rs)

pub gates_iff : Decides gates Gates
gates_iff r = ground arith

pub carries_iff : (code : ReasonCode) → Decides (carries code) (Carries code)
carries_iff code r = has_code_iff r.reason_code code

pub any-gates_iff : (rs : List CheckResult) → (any gates rs ≡ true) ↔ Any Gates rs
any-gates_iff = any_iff gates Gates gates_iff

pub any-carries_iff :
    (code : ReasonCode) (rs : List CheckResult)
    → (any (carries code) rs ≡ true) ↔ Any (Carries code) rs
any-carries_iff code = any_iff (carries code) (Carries code) (carries_iff code)

all-skip_iff : (rs : List CheckResult) → (all (has_status skip) rs ≡ false) ↔ Any Judged rs
all-skip_iff [] = ground arith
all-skip_iff (r ∷ rs) = ground (arith, all-skip_iff rs)

pub nothing_applied_iff : (rs : List CheckResult) → (nothing_applied rs ≡ false) ↔ Any Judged rs
nothing_applied_iff [] = ground arith
nothing_applied_iff (r ∷ rs) = all-skip_iff (r ∷ rs)

pub version_not_passed_iff :
    (rs : List CheckResult)
    → (version_not_passed (first is_version_check rs) ≡ false) ↔ VersionPassed rs
version_not_passed_iff [] = ground arith
version_not_passed_iff (r ∷ rs) =
    ground (arith, version_not_passed_iff rs, string_eq.beq_iff r.check_id "RS-PR-001")
