-- ===== src/Runner/Laws.antt =====
-- The results of a passive run.
use x402_conformance.Prelude.{
  ◌≤◌, ◌≡◌, ◌≢◌, ◌↔◌, refl, none, List, [], ◌∷◌, arith, nat_eq, string_eq,
}
use x402_conformance.Active.Response.{header}
use x402_conformance.Probe.{Probe, payment_required_header}
use x402_conformance.Checks.Base.{
  error, CheckResult, CheckReturn, plain, qualified, Ran, returned, raised, Check,
}
use x402_conformance.Runner.{is_paywall, unreachable_reason, run_check, run_selected}

-- What the result of a check carries from its run.
abbrev pub Reports : Ran CheckReturn → CheckResult → Type 0
Reports (returned (plain status detail)) r =
    (r.status ≡ status) × (r.detail ≡ detail) × (r.reason_code ≡ none)
Reports (returned (qualified status detail code)) r =
    (r.status ≡ status) × (r.detail ≡ detail) × (r.reason_code ≡ code)
Reports (raised exc) r = (r.status ≡ error) × (r.reason_code ≡ none)

-- One result to each check, in the same order.
abbrev pub Match : {S : Type 0} → S → List (Check S CheckReturn) → List CheckResult → Type 0
Match session [] [] = Unit
Match session [] (r ∷ rs) = ⊥
Match session (c ∷ cs) [] = ⊥
Match session (c ∷ cs) (r ∷ rs) =
    (r.check_id ≡ c.check_id)
    × (r.severity ≡ c.severity)
    × Reports (c.func session) r
    × Match session cs rs

run_check-Reports :
    {S : Type 0} (c : Check S CheckReturn) (session : S) (ran : Ran CheckReturn)
    → c.func session ≡ ran
    → Reports ran (run_check c session)
unfolding run_check
run_check-Reports c session (returned (plain status detail)) e = rw (e) (refl, refl, refl)
run_check-Reports c session (returned (qualified status detail code)) e = rw (e) (refl, refl, refl)
run_check-Reports c session (raised exc) e = rw (e) (refl, refl)

-- Every selected check has exactly one result, in the registry's order and under its ID and
-- severity: what it returned, or an ERROR without a reason code when it crashed, which keeps no later
-- check from running.
pub run_selected-Match :
    {S : Type 0} (checks : List (Check S CheckReturn)) (session : S)
    → Match session checks (run_selected checks session)
unfolding run_selected
run_selected-Match [] session = tt
run_selected-Match (c ∷ cs) session =
    (refl, refl, run_check-Reports c session (c.func session) refl, run_selected-Match cs session)

-- The run is given up as unreachable exactly on a server error without the payment header.
pub unreachable_iff :
    (p : Probe)
    → (unreachable_reason p ≢ none)
      ↔ (500 ≤ p.status_code) × (header p.headers payment_required_header ≡ none)
unfolding unreachable_reason is_paywall
unreachable_iff p = ground arith
