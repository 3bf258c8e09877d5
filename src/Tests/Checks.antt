-- ===== src/Tests/Checks.antt =====
-- checks/negative.py and checks/handshake.py on single answers.
use mathlib.Core.List.{Permᴰ}
use x402_conformance.Prelude.{
  ℕ, String, ◌≡◌, ◌≢◌, ◌↔◌, ◌⊎◌, refl, false, Option, none, some, List, [], ◌∷◌, length, string_eq,
  nat_eq, arith, is_space, ◌==◌,
}
use x402_conformance.Json.{Json, Fields, get, set_field}
use x402_conformance.Safety.Digits.{ascii, int_text}
use x402_conformance.Active.Response.{ActiveResponse}
use x402_conformance.Probe.{Probe}
use x402_conformance.Checks.Base.{
  major, Status, pass, fail, CheckResult, Check, Ran, returned, raised,
}
use x402_conformance.Checks.Negative.{assert_rejected}
use x402_conformance.Checks.Negative.Verdict.{Rejected, assert_rejected_iff}
use x402_conformance.Checks.Negative.Echo.{mismatched_builder_code_echo}
use x402_conformance.Checks.Evaluate.{evaluate_active, run_all, Progress}
use x402_conformance.Checks.Evaluate.Order.{Counted, evaluate_active_lem}
use x402_conformance.Checks.Handshake.{positive_value, is_digits}

abbrev quoted : String → String
quoted s = s

-- A plain refusal with the given status.
abbrev refusal : ℕ → ActiveResponse
refusal status = record {
  status_code = status;
  headers = [];
  body = "";
  settlement = none;
  settlement_error = none;
  marker_leaked = false;
  transport_error = none;
  redirect_blocked = none;
}

assert_rejected_iff_example :
    (((assert_rejected quoted (refusal 402) (402 ∷ [])).0 ≡ pass)
      ↔ Rejected (refusal 402) (402 ∷ []))
    × (((assert_rejected quoted (refusal 402) (402 ∷ [])).0 ≡ pass)
        ⊎ ((assert_rejected quoted (refusal 402) (402 ∷ [])).0 ≡ fail))
assert_rejected_iff_example = assert_rejected_iff quoted (refusal 402) (402 ∷ [])

abbrev declared : Fields
declared =
    Fields.field "builder-code"
      (Json.obj
        (Fields.field "info" (Json.obj (Fields.field "a" (Json.str "shop") Fields.end)) Fields.end))
      Fields.end

abbrev echoed : Fields
echoed =
    Fields.field "builder-code"
      (Json.obj (
        Fields.field "info"
          (Json.obj (Fields.field "a" (Json.str "x402_conformance_probe") Fields.end)) Fields.end))
      Fields.end

shop_echo : mismatched_builder_code_echo declared ≡ some (echoed, "x402_conformance_probe")
unfolding mismatched_builder_code_echo get set_field
shop_echo = refl

abbrev undecoded : String → Option Json
undecoded s = none

abbrev active_check : String → Ran (Status × String) → Check (Unit {0}) (Status × String)
active_check id ran = record {
  check_id = id;
  title = "";
  severity = major;
  spec_ref = "";
  func = λ ctx. ran;
}

abbrev registry : List (Check (Unit {0}) (Status × String))
registry =
    active_check "RS-NEG-001" (returned (pass, ""))
    ∷ active_check "RS-NEG-002" (raised "KeyError('amount')")
    ∷ []

-- A pool that completes the last check first.
abbrev reversed : List CheckResult → List CheckResult
reversed (a ∷ b ∷ []) = b ∷ a ∷ []
reversed rs = rs

perm_refl : (rs : List CheckResult) → Permᴰ rs rs
perm_refl [] = Permᴰ.nil
perm_refl (r ∷ rs) = Permᴰ.cons refl (perm_refl rs)

reversed-perm : (rs : List CheckResult) → Permᴰ (reversed rs) rs
reversed-perm [] = Permᴰ.nil
reversed-perm (a ∷ []) = perm_refl (a ∷ [])
reversed-perm (a ∷ b ∷ []) = Permᴰ.swap refl refl
reversed-perm (a ∷ b ∷ c ∷ rs) = perm_refl (a ∷ b ∷ c ∷ rs)

ids≢ : ◌≢◌ {A = String} "RS-NEG-002" "RS-NEG-001"
ids≢ h = ground (arith, string_eq.beq_iff "RS-NEG-002" "RS-NEG-001")

evaluate_active_lem_example :
    (progress : List Progress) × (seen : List CheckResult) × (evaluate_active registry
        (some tt)
        4
        reversed
      ≡ some (run_all registry (some tt), progress))
    × Permᴰ seen (run_all registry (some tt))
    × Counted (length registry) 0 seen progress
evaluate_active_lem_example =
    evaluate_active_lem registry ((ids≢, tt), (tt, tt)) (some tt) 4 reversed reversed-perm

abbrev answer : ℕ → String → Probe
answer status cache_control = record {
  status_code = status;
  headers = ("cache-control", cache_control) ∷ [];
  body = "";
  header_b64 = none;
  decoded = none;
  decode_error = none;
  raw = none;
  json_error = none;
  parsed = none;
  parse_error = none;
  nonstandard_json_literals = [];
  duplicate_json_keys = [];
}

-- `str.isdigit` holds of the superscript two, which `int` does not read: the check crashes.
superscript_crashes : positive_value ascii (λ c. c == 178) "²" ≡ none
unfolding positive_value is_digits int_text is_space
superscript_crashes = refl
