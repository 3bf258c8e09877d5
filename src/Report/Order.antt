-- ===== src/Report/Order.antt =====
-- The verdict of report.py does not depend on the order in which the checks were run.
use mathlib.Core.List.{Perm, Permᴰ}
use mathlib.Core.Logic.{∥∥₁_elim}
use native.Mathlib.Nat.{ℕ_set}
use x402_conformance.Prelude.{
  ◌≡◌, ◌≢◌, Bool, false, List, [], ◌∷◌, ◌&&◌, not, arith, refl, ap, ◌∙◌, any, all, first, All, ◌==◌,
  string_eq,
}
use x402_conformance.Checks.Base.{pass, skip, status_eq, ReasonCode, CheckResult}
use x402_conformance.Report.{
  gates, carries, has_status, is_empty, is_version_check, version_not_passed, assessment_exit_code,
}

module _ {ℓ} {A : Type ℓ} (p : A → Bool) where
  any-permᴰ : {xs ys : List A} → Permᴰ xs ys → any p xs ≡ any p ys
  any-permᴰ Permᴰ.nil = refl
  any-permᴰ (Permᴰ.cons e h) = ground (arith, ap p e, any-permᴰ h)
  any-permᴰ (Permᴰ.swap e f) = ground (arith, ap p e, ap p f)
  any-permᴰ (Permᴰ.trans h k) = any-permᴰ h ∙ any-permᴰ k

  all-permᴰ : {xs ys : List A} → Permᴰ xs ys → all p xs ≡ all p ys
  all-permᴰ Permᴰ.nil = refl
  all-permᴰ (Permᴰ.cons e h) = ground (arith, ap p e, all-permᴰ h)
  all-permᴰ (Permᴰ.swap e f) = ground (arith, ap p e, ap p f)
  all-permᴰ (Permᴰ.trans h k) = all-permᴰ h ∙ all-permᴰ k

is_empty-permᴰ {ℓ} : {A : Type ℓ} {xs ys : List A} → Permᴰ xs ys → is_empty xs ≡ is_empty ys
is_empty-permᴰ Permᴰ.nil = refl
is_empty-permᴰ (Permᴰ.cons e h) = refl
is_empty-permᴰ (Permᴰ.swap e f) = refl
is_empty-permᴰ (Permᴰ.trans h k) = is_empty-permᴰ h ∙ is_empty-permᴰ k

-- No two results have one ID, as the registry guarantees.
abbrev pub UniqueIds : List CheckResult → Type 0
UniqueIds [] = Unit
UniqueIds (r ∷ rs) = All (λ s. s.check_id ≢ r.check_id) rs × UniqueIds rs

abbrev refutes_version : CheckResult → Bool
refutes_version r = is_version_check r && not (r.status == pass)

no-version_of_unique :
    (r : CheckResult) (rs : List CheckResult)
    → r.check_id ≡ "RS-PR-001"
    → All (λ s. s.check_id ≢ r.check_id) rs
    → any refutes_version rs ≡ false
no-version_of_unique r [] e h = refl
no-version_of_unique r (s ∷ rs) e h =
    ground (arith, no-version_of_unique r rs e h.1, string_eq.beq_iff s.check_id "RS-PR-001", h.0)

-- Where IDs are unique, the first version result is the only one.
first-version-any :
    (rs : List CheckResult)
    → UniqueIds rs
    → version_not_passed (first is_version_check rs) ≡ any refutes_version rs
first-version-any [] u = refl
first-version-any (r ∷ rs) u = ground (
  arith,
  first-version-any rs u.1,
  no-version_of_unique r rs,
  u.0,
  string_eq.beq_iff r.check_id "RS-PR-001",
)

assessment-permᴰ :
    {xs ys : List CheckResult}
    → UniqueIds xs
    → UniqueIds ys
    → Permᴰ xs ys
    → assessment_exit_code xs ≡ assessment_exit_code ys
unfolding assessment_exit_code
assessment-permᴰ {xs} {ys} u v h = ground (
  arith,
  any-permᴰ gates h,
  is_empty-permᴰ h,
  all-permᴰ (has_status skip) h,
  any-permᴰ (carries ReasonCode.deferred_pending_upstream) h,
  any-permᴰ (carries ReasonCode.settlement_pending) h,
  first-version-any xs u,
  first-version-any ys v,
  any-permᴰ refutes_version h,
)

-- Two runs whose results are the same up to order, with no ID twice in either, have one exit code.
pub assessment-perm :
    {xs ys : List CheckResult}
    → UniqueIds xs
    → UniqueIds ys
    → Perm xs ys
    → assessment_exit_code xs ≡ assessment_exit_code ys
assessment-perm u v h = ∥∥₁_elim h (ℕ_set _ _) (assessment-permᴰ u v)
