-- ===== src/Checks/PaymentRequired/Loops.antt =====
-- What the loops of the challenge checks decide: a loop finds nothing exactly if no entry has a
-- problem.
use x402_conformance.Prelude.{
  ℕ, suc, Bool, true, false, String, ◌≡◌, ◌≢◌, ◌↔◌, List, [], ◌∷◌, ◌++◌, arith, All, count_if, keep,
  length, ◌==◌, nat_eq, if◌then◌else◌,
}
use x402_conformance.Json.{Fields}
use x402_conformance.Checks.Base.{Status, pass, fail, skip}
use x402_conformance.Checks.PaymentRequired.{collect, fail_if}

pub append-eq-nil_iff {ℓ} : {A : Type ℓ} (xs ys : List A) → (xs ++ ys ≡ []) ↔ (xs ≡ []) × (ys ≡ [])
append-eq-nil_iff [] ys = ground arith
append-eq-nil_iff (x ∷ xs) ys = ground arith

-- The problems of an entry decide a predicate, whatever number the entry has.
abbrev pub Finds : (ℕ → Fields → List String) → (Fields → Type 0) → Type 0
Finds problems Fine = (i : ℕ) (e : Fields) → (problems i e ≡ []) ↔ Fine e

pub collect-eq-nil_iff :
    (problems : ℕ → Fields → List String) (Fine : Fields → Type 0)
    → Finds problems Fine
    → (i : ℕ) (es : List Fields) → (collect problems i es ≡ []) ↔ All Fine es
collect-eq-nil_iff problems Fine f i [] = ground arith
collect-eq-nil_iff problems Fine f i (e ∷ es) = ground (
  arith,
  append-eq-nil_iff (problems i e) (collect problems (suc i) es),
  f i e,
  collect-eq-nil_iff problems Fine f (suc i) es,
)

-- The status of a check that fails exactly on problems.
pub fail_if_iff :
    (ps : List String) (text detail : String) (result : Status × String)
    → result ≡ fail_if ps text (pass, detail)
    → ((result.0 ≡ pass) ↔ (ps ≡ [])) × ((result.0 ≡ fail) ↔ (ps ≢ []))
fail_if_iff [] text detail result h = ground arith
fail_if_iff (p ∷ ps) text detail result h = ground arith

pub length-keep_iff :
    (p : Fields → Bool) (es : List Fields)
    → ((length (keep p es) == 0) ≡ true) ↔ (count_if p es ≡ 0)
length-keep_iff p [] = ground arith
length-keep_iff p (e ∷ es) = ground (arith, length-keep_iff p es)

-- The status of a check that grades the marked entries: skipped without one, and otherwise failed or
-- passed by whether all entries are fine.
abbrev pub GradedBy : (Fields → Type 0) → (Fields → Bool) → List Fields → Status → Type 0
GradedBy Fine mark es s =
    ((s ≡ skip) ↔ (count_if mark es ≡ 0))
    × ((s ≡ fail) ↔ (¬ All Fine es))
    × ((s ≡ pass) ↔ ((count_if mark es ≢ 0) × All Fine es))

module _ (problems : ℕ → Fields → List String) (Fine : Fields → Type 0)
    (finds : Finds problems Fine) where
  -- A check that inspects every entry.
  pub inspected_iff :
      (es : List Fields) (text detail : String) (result : Status × String)
      → result ≡ fail_if (collect problems 0 es) text (pass, detail)
      → ((result.0 ≡ pass) ↔ All Fine es) × ((result.0 ≡ fail) ↔ (¬ All Fine es))
  inspected_iff es text detail result h = ground (
    arith,
    fail_if_iff (collect problems 0 es) text detail result h,
    collect-eq-nil_iff problems Fine finds 0 es,
  )

  module _ (mark : Fields → Bool) (unmarked : (e : Fields) → mark e ≡ false → Fine e) where
    All-unmarked : (es : List Fields) → count_if mark es ≡ 0 → All Fine es
    All-unmarked [] h = tt
    All-unmarked (e ∷ es) h = (unmarked e (ground arith), All-unmarked es (ground arith))

    pub graded_iff :
        (es : List Fields) (reason text detail : String) (result : Status × String)
        → result ≡ (
            if length (keep mark es) == 0
            then (skip, reason)
            else fail_if (collect problems 0 es) text (pass, detail))
        → GradedBy Fine mark es result.0
    graded_iff es reason text detail result h = ground (
      arith,
      length-keep_iff mark es,
      All-unmarked es,
      collect-eq-nil_iff problems Fine finds 0 es,
    )
