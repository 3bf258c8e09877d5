-- ===== src/Checks/PaymentRequired/Flow/Verdict.antt =====
-- The verdict of RS-PR-027 on all entries.
use x402_conformance.Prelude.{
  Bool, true, false, String, ◌≡◌, ◌≢◌, refl, ◌↔◌, List, [], ◌∷◌, some, any, arith, All, count_if,
  nat_eq,
}
use x402_conformance.Checks.PaymentRequired.Loops.{GradedBy}
use x402_conformance.Json.{Json, Fields}
use x402_conformance.Probe.{Probe}
use x402_conformance.Checks.Base.{Status, pass, fail, skip, returned, raised}
use x402_conformance.Checks.Handshake.{is_version_one}
use x402_conformance.Checks.PaymentRequired.{accepts_raw}
use x402_conformance.Checks.PaymentRequired.Flow.{
  is_graded, grade_all, pr_027, Grades, conclude_flows, advisory,
}
use x402_conformance.Checks.PaymentRequired.Flow.Loop.{
  Graded, nothing, crashes, Passes, grade_flows-Graded, grade_flows-crash,
}

advisory_pass :
    (notes : List String) (text closing detail : String)
    → (advisory notes text closing (pass, detail)).0 ≡ pass
advisory_pass [] text closing detail = refl
advisory_pass (x ∷ xs) text closing detail = refl

conclude_lem :
    (g : Grades) (r : Status × String)
    → r ≡ conclude_flows g
    → ((r.0 ≡ skip) ↔ (g.graded ≡ 0))
      × ((r.0 ≡ fail) ↔ ((g.graded ≢ 0) × (g.problems ≢ [])))
      × ((r.0 ≡ pass) ↔ ((g.graded ≢ 0) × (g.problems ≡ [])))
conclude_lem g r h = ground (arith, advisory_pass g.advisories "advisory: " "")

Passes-ungraded : (es : List Fields) → count_if is_graded es ≡ 0 → All Passes es
Passes-ungraded [] h = tt
Passes-ungraded (e ∷ es) h = (λ y. ground arith, Passes-ungraded es (ground arith))

conclude_flows-GradedBy :
    (es : List Fields) (h : Grades)
    → Graded es nothing h
    → GradedBy Passes is_graded es (conclude_flows h).0
conclude_flows-GradedBy es h (n, pq) =
    ground (arith, conclude_lem h (conclude_flows h) refl, Passes-ungraded es)

module _ (repr unhashable : Json → String) (same : Json → Json → Bool) where
  grade_all-raised :
      (es : List Fields)
      → any crashes es ≡ true
      → (exc : String) × (grade_all repr unhashable same es ≡ raised exc)
  grade_all-raised es n =
      let (exc, r) = grade_flows-crash repr unhashable same es 0 es nothing n in
      (exc, rw (r, grade_all) refl)

  grade_all-returned :
      (es : List Fields)
      → any crashes es ≡ false
      → (r : Status × String) × (grade_all repr unhashable same es ≡ returned r)
        × GradedBy Passes is_graded es r.0
  grade_all-returned es n =
      let (h, r, k) = grade_flows-Graded repr unhashable same es 0 es nothing n in
      (conclude_flows h, rw (r, grade_all) refl, conclude_flows-GradedBy es h k)

  pr_027-eq-grade_all :
      (p : Probe) (e : Fields) (es : List Fields)
      → is_version_one p ≡ false
      → accepts_raw p ≡ some (e ∷ es)
      → pr_027 repr unhashable same p ≡ grade_all repr unhashable same (e ∷ es)
  unfolding pr_027
  pr_027-eq-grade_all p e es v a = rw (v, a, pr_027) refl

  -- For a challenge that is not of the first version and has an entry, RS-PR-027 crashes if a graded
  -- entry declares a `paymentFlow` that Python cannot hash. Otherwise it returns: it is skipped exactly
  -- if it grades no entry, fails exactly if a graded entry breaks the table of permitted flows, and
  -- passes exactly if it grades some entry and none of them breaks the table.
  pub pr_027_iff :
      (p : Probe) (e : Fields) (es : List Fields)
      → is_version_one p ≡ false
      → accepts_raw p ≡ some (e ∷ es)
      → (any crashes (e ∷ es) ≡ true
          → (exc : String) × (pr_027 repr unhashable same p ≡ raised exc))
        × (any crashes (e ∷ es) ≡ false
            → (r : Status × String) × (pr_027 repr unhashable same p ≡ returned r)
              × GradedBy Passes is_graded (e ∷ es) r.0)
  pr_027_iff p e es v a =
      rw (pr_027-eq-grade_all p e es v a) (grade_all-raised (e ∷ es), grade_all-returned (e ∷ es))
