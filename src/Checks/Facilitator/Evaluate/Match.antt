-- ===== src/Checks/Facilitator/Evaluate/Match.antt =====
-- The results of a facilitator run, one for each check.
use x402_conformance.Prelude.{String, refl, ◌≡◌, Option, none, some, List, [], ◌∷◌}
use x402_conformance.Checks.Base.{Status, CheckResult}
use x402_conformance.Checks.Facilitator.{
  FaState, Outcome, done, http_error, crashed, continue, return, ◌>>=◌,
}
use x402_conformance.Checks.Facilitator.Evaluate.{
  FaCheck, finish_check, run_fa_check, run_fa_checks, evaluate_facilitator, unreachable_results,
}

-- One result to each check, in the same order.
abbrev pub Match : List FaCheck → List CheckResult → Type 0
Match [] [] = Unit
Match [] (r ∷ rs) = ⊥
Match (c ∷ cs) [] = ⊥
Match (c ∷ cs) (r ∷ rs) = (r.check_id ≡ c.check_id) × (r.severity ≡ c.severity) × Match cs rs

-- The results, if a transport error has not ended the run.
abbrev pub Completes : List FaCheck → Outcome (List CheckResult) → Type 0
Completes checks (done results) = Match checks results
Completes checks (http_error e) = Unit
Completes checks (crashed exc) = ⊥

-- The result of one check.
abbrev Finishes : FaCheck → Outcome CheckResult → Type 0
Finishes check (done r) = (r.check_id ≡ check.check_id) × (r.severity ≡ check.severity)
Finishes check (http_error e) = Unit
Finishes check (crashed exc) = ⊥

finish_check-Finishes :
    (check : FaCheck) (r : Outcome (Status × String) × FaState)
    → Finishes check (finish_check check r).0
finish_check-Finishes check (done (status, detail), s) = (refl, refl)
finish_check-Finishes check (http_error e, s) = tt
finish_check-Finishes check (crashed exc, s) = (refl, refl)

module _ (check : FaCheck) (checks : List FaCheck) where
  prepend-Completes :
      (result : CheckResult) (rest : Outcome (List CheckResult) × FaState)
      → Finishes check (done result)
      → Completes checks rest.0
      → Completes (check ∷ checks) (continue rest (λ results. return (result ∷ results))).0
  prepend-Completes result (done results, s) (h, k) m = (h, k, m)
  prepend-Completes result (http_error e, s) h m = tt
  prepend-Completes result (crashed exc, s) h m = m

  continue-Completes :
      (r : Outcome CheckResult × FaState)
      → Finishes check r.0
      → ((s : FaState) → Completes checks (run_fa_checks checks s).0)
      → Completes
          (check ∷ checks)
          (continue r (λ result. run_fa_checks checks >>= (λ results. return (result ∷ results)))).0
  continue-Completes (done result, s) h m =
      prepend-Completes result (run_fa_checks checks s) h (m s)
  continue-Completes (http_error e, s) h m = tt
  continue-Completes (crashed exc, s) h m = h

run_fa_checks-Completes :
    (checks : List FaCheck) (s : FaState) → Completes checks (run_fa_checks checks s).0
unfolding run_fa_checks run_fa_check
run_fa_checks-Completes [] s = tt
run_fa_checks-Completes (check ∷ checks) s =
    continue-Completes check checks (run_fa_check check s)
      (finish_check-Finishes check (check.func s)) (run_fa_checks-Completes checks)

unreachable_results-Match : (checks : List FaCheck) → Match checks (unreachable_results checks)
unreachable_results-Match [] = tt
unreachable_results-Match (check ∷ checks) = (refl, refl, unreachable_results-Match checks)

-- A run of the facilitator's checks never ends by a crash: unless a transport error ends it, it has
-- one result for each check, in the registry's order and under its ID and severity, also where a
-- check crashed or there is no facilitator.
pub evaluate_facilitator-Completes :
    (checks : List FaCheck) (ctx : Option FaState)
    → Completes checks (evaluate_facilitator checks ctx)
unfolding evaluate_facilitator
evaluate_facilitator-Completes checks none = unreachable_results-Match checks
evaluate_facilitator-Completes checks (some s) = run_fa_checks-Completes checks s
