-- ===== src/Checks/Facilitator/Verify.antt =====
-- The checks that post payments to /verify. `build` is `_build_payload`, that is Payload's
-- `build_exact_eip3009_payload` with the context's signer, resource and extensions.
pub mod Rejection
pub mod Absence
pub mod Marks
use x402_conformance.Prelude.{
  ℕ, String, Bool, false, Option, none, some, [], ◌∷◌, ◌++◌, ◌==◌, nat_eq, string_eq, leb, ltb,
  ◌&&◌, ◌||◌, not, if◌then◌else◌, fstring, decimal,
}
use x402_conformance.Json.{Json, Fields, get, set_field}
use x402_conformance.Models.{VerifyResponse, verify_of_json}
use x402_conformance.Active.Response.{Headers, header}
use x402_conformance.Payload.{PaymentPayload}
use x402_conformance.Probe.{Loaded, document, malformed, too_deep}
use x402_conformance.Checks.Base.{Status, pass, fail, skip, Ran, returned, raised}
use x402_conformance.Checks.Facilitator.{
  Client, Call, done, post, send, return, crash, ◌>>=◌, absent, noncanonical, is_absent,
  is_gradable, absence_reason,
}
use x402_conformance.Checks.Facilitator.Codes.{is_known}

-- The tuple that `_verify` and `_settle` return.
pub record Answer {ℓ} (A : Type ℓ) : Type ℓ where
  pub response : Option A
  pub error : Option String
  pub status : ℕ

abbrev pub eoa_asset : String
eoa_asset = "0xf39Fd6e51aad88F6F4ce6aB8827279cffFb92266"

-- `s or text`
abbrev pub or_text : Option String → String → String
or_text none text = text
or_text (some s) text = if s == "" then text else s

abbrev pub built : Ran PaymentPayload → Call PaymentPayload
built (returned payload) = return payload
built (raised exc) = crash exc

-- How a strict response model reads a body, where `path` answered with the status.
module _ {ℓ} {A : Type ℓ} (validate : Json → Option A) (explain : Json → String)
    (path : String) where
  abbrev refused : String → ℕ → Answer A
  refused text status = record { response = none; error = some text; status = status }

  abbrev invalid_response : String → ℕ → Answer A
  invalid_response text status =
      refused (fstring (path ∷ " returned an invalid response: " ∷ text ∷ [])) status

  abbrev validated : Json → ℕ → Option A → Answer A
  validated j status none = invalid_response (explain j) status
  validated j status (some r) = record { response = some r; error = none; status = status }

  abbrev pub read_answer : ℕ → Loaded → Call (Answer A)
  read_answer status (document j) = return (validated j status (validate j))
  read_answer status (malformed text) = return (invalid_response text status)
  read_answer status too_deep = crash "RecursionError"

  abbrev pub grade_answer : (String → Loaded) → ℕ → String → Call (Answer A)
  grade_answer loads status body =
      if is_absent status
      then return (refused (absence_reason path status) status)
      else if not (is_gradable status)
      then return (refused (fstring (path ∷ " returned HTTP " ∷ decimal status ∷ [])) status)
      else read_answer status (loads body)

-- `_note_extension_responses`
abbrev pub note_extension_responses : Headers → Call (Unit {0})
note_extension_responses headers s = elim (header headers "extension-responses") [
  | none ↦ (done tt, s)
  | some value ↦ (done tt, record s { extension_responses = s.extension_responses ++ value ∷ [] })
]

unfoldable pub judge_004 : ℕ → Call (Status × String)
judge_004 status =
    if is_absent status
    then absent "FA-VER-004" (absence_reason "/verify" status)
    else if leb 500 status && leb status 599
    then return (
      fail,
      fstring (
          "/verify returned HTTP "
          ∷ decimal status
          ∷ " on an invalid (EOA-asset) payment — malformed client input should surface as isValid:false (200/4xx), not a server error"
          ∷ []),
    )
    else if not ((leb 200 status && ltb status 300) || (leb 400 status && ltb status 500))
    then return (fail, fstring ("/verify returned unexpected HTTP " ∷ decimal status ∷ []))
    else return (pass, fstring ("clean HTTP " ∷ decimal status ∷ " on invalid input (no 5xx)" ∷ []))

-- `repr` is `repr` of a text or None.
module _ (repr : Option String → String) where
  unfoldable pub judge_002 : Answer VerifyResponse → Call (Status × String)
  judge_002 a =
      if is_absent a.status
      then absent "FA-VER-002" (or_text a.error (absence_reason "/verify" a.status))
      else elim a.response [
        | none ↦ return (fail, or_text a.error "/verify did not return a valid response")
        | some r ↦
            if r.is_valid
            then return (fail, "/verify reported isValid:true for value != requirements.amount")
            else return
                (pass, fstring ("correctly invalid (reason: " ∷ repr r.invalid_reason ∷ ")" ∷ []))
      ]

  abbrev pub is_canonical : Option String → Bool
  is_canonical none = false
  is_canonical (some reason) = reason == "asset_not_deployed_contract"

  unfoldable pub judge_003 : Answer VerifyResponse → Call (Status × String)
  judge_003 a =
      if is_absent a.status
      then absent "FA-VER-003" (or_text a.error (absence_reason "/verify" a.status))
      else elim a.response [
        | none ↦ return (fail, or_text a.error "/verify did not return a valid response")
        | some r ↦
            if r.is_valid
            then return (
              fail,
              "/verify accepted a payment whose asset is an EOA (no contract code) — silent-no-op / payment-bypass risk",
            )
            else if is_canonical r.invalid_reason
            then return (pass, "correctly rejected EOA asset")
            else noncanonical "FA-VER-003" (
                fstring (
                  "correctly rejected EOA asset, but with non-canonical reason "
                  ∷ repr r.invalid_reason
                  ∷ " (canonical: asset_not_deployed_contract, x402#2554) — clients keying on the canonical code will not recognise it"
                  ∷ []))
      ]

  unfoldable pub judge_reason : Option String → Status × String
  judge_reason none = (fail, "isValid:false without an invalidReason")
  judge_reason (some reason) =
      if not (is_known reason)
      then (
        fail,
        fstring ("invalidReason " ∷ repr (some reason) ∷ " not in the CORE §9 registry" ∷ []),
      )
      else (pass, fstring ("reason " ∷ repr (some reason) ∷ " is a known code" ∷ []))

  unfoldable pub judge_err : Answer VerifyResponse → Call (Status × String)
  unfolding judge_reason
  judge_err a =
      if is_absent a.status
      then absent "FA-ERR-001" (or_text a.error (absence_reason "/verify" a.status))
      else elim a.response [
        | none ↦ return (fail, or_text a.error "no valid /verify response to inspect")
        | some r ↦ return (judge_reason r.invalid_reason)
      ]

module _ (client : Client) (loads : String → Loaded) (explain : Json → String) where
  unfoldable pub verify : PaymentPayload → Fields → Call (Answer VerifyResponse)
  unfolding send header verify_of_json
  verify payload requirements = do
    (status, headers, body) ← send client (post "/verify" payload requirements)
    _ ← note_extension_responses headers
    grade_answer verify_of_json explain "/verify" loads status body

  -- `_verify_raw`, of whose result the check reads the status only
  unfoldable pub verify_raw : PaymentPayload → Fields → Call ℕ
  unfolding send header
  verify_raw payload requirements = do
    (status, headers, body) ← send client (post "/verify" payload requirements)
    _ ← note_extension_responses headers
    return status

  -- `str_of` is `str` of a decoded value.
  module _ (build : Fields → Ran PaymentPayload) (repr : Option String → String)
      (str_of : Json → String) (lower : String → String) where
    abbrev cheap_of : Fields → Fields
    cheap_of requirements = set_field requirements "amount" (Json.str "1")

    abbrev eoa_of : Fields → Fields
    eoa_of requirements = set_field requirements "asset" (Json.str eoa_asset)

    -- A payment for one unit, against the requirements of the challenge.
    unfoldable pub verify_cheap : Fields → Call (Answer VerifyResponse)
    unfolding verify set_field
    verify_cheap requirements = do
      cheap ← built (build (cheap_of requirements))
      verify cheap requirements

    -- Without requirements or signer there is no payment to build.
    unfoldable pub fa_ver_002 : Option Fields → Call (Status × String)
    unfolding verify_cheap judge_002
    fa_ver_002 none = return (skip, "no --resource requirements / signer to build a payment")
    fa_ver_002 (some requirements) = verify_cheap requirements >>= judge_002 repr

    abbrev asset_text : Fields → String
    asset_text requirements = elim (get requirements "asset") [
      | none ↦ ""
      | some asset ↦ str_of asset
    ]

    abbrev pub advertises_eoa : Fields → Bool
    advertises_eoa requirements = lower (asset_text requirements) == lower eoa_asset

    unfoldable pub fa_ver_003 : Option Fields → Call (Status × String)
    unfolding verify judge_003 get set_field
    fa_ver_003 none = return (skip, "no --resource requirements / signer to build a payment")
    fa_ver_003 (some requirements) =
        if advertises_eoa requirements
        then return (skip, "endpoint already advertises the EOA test asset")
        else do
          payload ← built (build (eoa_of requirements))
          a ← verify payload (eoa_of requirements)
          judge_003 repr a

    unfoldable pub fa_ver_004 : Option Fields → Call (Status × String)
    unfolding verify_raw judge_004 get set_field
    fa_ver_004 none = return (skip, "no --resource requirements / signer to build a payment")
    fa_ver_004 (some requirements) =
        if advertises_eoa requirements
        then return (skip, "endpoint already advertises the EOA test asset")
        else do
          payload ← built (build (eoa_of requirements))
          status ← verify_raw payload (eoa_of requirements)
          judge_004 status

    unfoldable pub fa_err_001 : Option Fields → Call (Status × String)
    unfolding verify_cheap judge_err
    fa_err_001 none = return (skip, "no --resource requirements / signer to trigger an error")
    fa_err_001 (some requirements) = verify_cheap requirements >>= judge_err repr
