-- ===== src/Runner.antt =====
-- runner.py: the unpaid requests of a passive run, and the checks on what they answered.
pub mod Retry
pub mod Pqc
pub mod Laws
use x402_conformance.Prelude.{
  ℕ, zero, suc, ◌+◌, String, Bool, true, false, Option, none, some, List, [], ◌∷◌, ◌==◌, string_eq,
  nat_eq, leb, ltb, ◌&&◌, ◌||◌, not, is_none, if◌then◌else◌, is_blank, contains, fstring, decimal,
}
use x402_conformance.Active.Response.{Headers, header, HttpResponse}
use x402_conformance.Probe.{Probe, payment_required_header}
use x402_conformance.Checks.Base.{
  Status, error, ReasonCode, CheckResult, CheckReturn, plain, qualified, Ran, returned, raised,
  Check,
}
use x402_conformance.Checks.PathVariants.{PathVariant, Outcome}

unfoldable pub is_paywall : Probe → Bool
unfolding header
is_paywall p = p.status_code == 402 || not (is_none (header p.headers payment_required_header))

unfoldable pub unreachable_reason : Probe → Option String
unfolding is_paywall
unreachable_reason p =
    if leb 500 p.status_code && not (is_paywall p)
    then some (
        fstring (
          "endpoint returned server error HTTP "
          ∷ decimal p.status_code
          ∷ " with no x402 paywall signal"
          ∷ []))
    else none

-- What the request of one variant met: nothing, or a status with the text of the body.
abbrev pub Reply : Type 0
Reply = Option (ℕ × String)

abbrev pub outcome_of : PathVariant → Reply → Outcome
outcome_of variant none = record { variant = variant; code = none; has_body = false }
outcome_of variant (some (code, text)) = record {
  variant = variant;
  code = some code;
  has_body = not (is_blank text);
}

-- `marker_seen[variant.label] = resource_marker in body`, for an answered variant; the labels of the
-- variants are distinct, so that each entry is a new one.
abbrev pub note_marker : String → PathVariant → Reply → List (String × Bool) → List (String × Bool)
note_marker marker variant none seen = seen
note_marker marker variant (some (code, text)) seen = (variant.label, contains text marker) ∷ seen

module _ (request : PathVariant → Reply) where
  abbrev pub outcomes_of : List PathVariant → List Outcome
  outcomes_of [] = []
  outcomes_of (v ∷ vs) = outcome_of v (request v) ∷ outcomes_of vs

  abbrev pub markers_of : String → List PathVariant → List (String × Bool)
  markers_of marker [] = []
  markers_of marker (v ∷ vs) = note_marker marker v (request v) (markers_of marker vs)

  -- `{} if resource_marker else None`, filled by the loop
  abbrev pub marker_seen_of : Option String → List PathVariant → Option (List (String × Bool))
  marker_seen_of none vs = none
  marker_seen_of (some marker) vs = if marker == "" then none else some (markers_of marker vs)

  -- `variants` is `build_variants(url)`.
  unfoldable pub probe_path_variants :
      List PathVariant
      → Probe
      → Option String
      → Option (List Outcome) × Option (List (String × Bool))
  unfolding is_paywall
  probe_path_variants [] first resource_marker = (none, none)
  probe_path_variants (v ∷ vs) first resource_marker =
      if not (is_paywall first)
      then (none, none)
      else (some (outcomes_of (v ∷ vs)), marker_seen_of resource_marker (v ∷ vs))

-- The status, the detail and the rest of what a check returned, or of its crash.
abbrev pub normalise : Ran CheckReturn → Status × String × Option ReasonCode
normalise (returned (plain status detail)) = (status, detail, none)
normalise (returned (qualified status detail code)) = (status, detail, code)
normalise (raised exc) = (error, fstring ("check crashed (suite bug): " ∷ exc ∷ []), none)

module _ {S : Type 0} where
  unfoldable pub run_check : Check S CheckReturn → S → CheckResult
  run_check check session =
      let (status, detail, reason_code) = normalise (check.func session) in
      record {
        check_id = check.check_id;
        title = check.title;
        severity = check.severity;
        spec_ref = check.spec_ref;
        status = status;
        detail = detail;
        reason_code = reason_code;
      }

  -- The loop of `run_checks` over the selected registry.
  unfoldable pub run_selected : List (Check S CheckReturn) → S → List CheckResult
  unfolding run_check
  run_selected [] session = []
  run_selected (check ∷ checks) session = run_check check session ∷ run_selected checks session
