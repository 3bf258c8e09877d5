-- ===== src/Checks/Negative/Echo.antt =====
-- checks/negative.py: RS-NEG-016, a builder-code echo that differs from the declaration.
pub mod Laws
use x402_conformance.Prelude.{
  String, Bool, true, false, Option, none, some, List, [], ◌∷◌, ◌++◌, ◌==◌, string_eq, nat_eq, not,
  if◌then◌else◌, is_none, fstring, decimal,
}
use x402_conformance.Json.{Json, Fields, get, set_field, as_str, as_dict, is_text, dict_or_empty}
use x402_conformance.Models.{SettlementResponse}
use x402_conformance.Active.Response.{Headers, header, ActiveResponse}
use x402_conformance.Checks.Base.{Status, pass, fail, skip, status_eq}
use x402_conformance.Checks.Negative.{assert_rejected}

abbrev pub echo_mismatch : String
echo_mismatch = "extension_echo_mismatch"

abbrev pub echo_probe_code : String
echo_probe_code = "x402_conformance_probe"

-- `target.get("a")` differs from the code that is tried first, or else the second code is used.
abbrev pub probe_code : Option Json → String
probe_code declared =
    if is_text declared echo_probe_code then "x402_conformance_probe_2" else echo_probe_code

abbrev pub set_code : Fields → String → Fields
set_code target probe = set_field target "a" (Json.str probe)

-- The two shapes of a declaration: `a` stands in the `info` object, if there is one, or beside it.
abbrev pub set_in_entry : Fields → Option Fields → Fields × String
set_in_entry entry (some info) =
    let probe = probe_code (get info "a") in
    (set_field entry "info" (Json.obj (set_code info probe)), probe)
set_in_entry entry none = let probe = probe_code (get entry "a") in (set_code entry probe, probe)

unfoldable pub mismatched_builder_code_echo : Fields → Option (Fields × String)
unfolding get set_field
mismatched_builder_code_echo extensions = elim (as_dict (get extensions "builder-code")) [
  | none ↦ none
  | some entry ↦
      let (changed, probe) = set_in_entry entry (as_dict (get entry "info")) in
      some (set_field extensions "builder-code" (Json.obj changed), probe)
]

-- The first document that is an object whose `error` is a text with at least one character.
abbrev pub first_error : List Json → Option String
first_error [] = none
first_error (doc ∷ docs) =
    let rest = first_error docs in
    elim (as_str (get (dict_or_empty (some doc)) "error")) [
      | none ↦ rest
      | some text ↦ if text == "" then rest else some text
    ]

abbrev candidate : Option Json → List Json
candidate none = []
candidate (some doc) = doc ∷ []

-- `loads` is `json.loads` and `decode` the same after base64; `none` is their ValueError.
module _ (decode loads : String → Option Json) where
  abbrev header_candidate : Option String → List Json
  header_candidate none = []
  header_candidate (some raw) = if raw == "" then [] else candidate (decode raw)

  unfoldable pub rejection_reason : ActiveResponse → Option String
  unfolding header get
  rejection_reason r =
      first_error
        (header_candidate (header r.headers "payment-required") ++ candidate (loads r.body))

  -- `_rejection_reason(resp) or (the reason of the settlement header)`
  unfoldable pub stated_reason : ActiveResponse → Option String
  unfolding rejection_reason
  stated_reason r = elim (rejection_reason r) [
    | some text ↦ some text
    | none ↦ elim r.settlement [ none ↦ none | some s ↦ s.error_reason ]
  ]

  module _ (repr : String → String) where
    -- The verdict on a rejection, by its reason.
    unfoldable pub echo_verdict : ActiveResponse → String → Option String → Status × String
    echo_verdict r probe (some reason) =
        if reason == echo_mismatch
        then (
          pass,
          fstring ("rejected with " ∷ echo_mismatch ∷ " (echoed a=" ∷ repr probe ∷ ")" ∷ []),
        )
        else (
          fail,
          fstring (
              "rejected with "
              ∷ repr reason
              ∷ ", not "
              ∷ repr echo_mismatch
              ∷ ": the payment went past the builder-code echo check (likely to the facilitator), so a mismatched app code would have been attributed had it been funded"
              ∷ []),
        )
    echo_verdict r probe none =
        if not (is_none r.settlement)
        then (
          fail,
          "the rejection carries a PAYMENT-RESPONSE without a reason, so the payment reached settlement — the echo must be rejected before verification/settlement",
        )
        else (
          pass,
          fstring (
              "rejected (status "
              ∷ decimal r.status_code
              ∷ ") without a reason, so whether the echo check ran is not visible; a conformant server reports "
              ∷ repr echo_mismatch
              ∷ []),
        )

    -- `submit` builds the payment with the given extensions and sends it.
    unfoldable pub neg_016 : Fields → (Fields → ActiveResponse) → Status × String
    unfolding mismatched_builder_code_echo stated_reason echo_verdict assert_rejected
    neg_016 extensions submit = elim (mismatched_builder_code_echo extensions) [
      | none ↦ (skip, "no builder-code extension declared — nothing to echo")
      | some (echoed, probe) ↦
          let r = submit echoed in
          let (status, detail) = assert_rejected repr r (400 ∷ 402 ∷ []) in
          if not (status == pass) then (status, detail) else echo_verdict r probe (stated_reason r)
    ]
