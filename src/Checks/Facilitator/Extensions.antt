-- ===== src/Checks/Facilitator/Extensions.antt =====
-- FA-EXT-001: the EXTENSION-RESPONSES headers that the /verify answers carried.
use x402_conformance.Prelude.{
  ℕ, suc, ◌+◌, String, Bool, Option, none, some, List, [], ◌∷◌, ◌++◌, map, string_eq, length, not,
  if◌then◌else◌, fstring, decimal, join,
}
use x402_conformance.Json.{Json, Fields, get, as_dict}
use x402_conformance.Probe.{
  Base64, bytes, invalid, Loaded, document, malformed, too_deep, type_name, member,
}
use x402_conformance.Checks.Base.{Status, pass, skip}
use x402_conformance.Checks.PaymentRequired.{fail_if}
use x402_conformance.Checks.Facilitator.{Call, done, crashed}
use x402_conformance.Checks.Facilitator.Supported.{first_six}

abbrev pub bazaar_statuses : List String
bazaar_statuses = "success" ∷ "processing" ∷ "rejected" ∷ []

-- How the validation of one value ends: with its problems, or with an exception that it does not
-- catch, by its `repr`.
pub data Validated : Type 0 where
  problems : List String → Validated
  uncaught : String → Validated

-- `b64decode` and `loads` decode; an exception that is caught is given by its type's name.
-- `unhashable` is the `repr` of the TypeError for a value that Python cannot hash.
module _ (b64decode : String → Base64) (loads : String → Loaded)
    (repr unhashable : Json → String) where
  abbrev entry_problems : Fields → List String
  entry_problems Fields.end = []
  entry_problems (Fields.field key (Json.obj value) fs) = entry_problems fs
  entry_problems (Fields.field key value fs) =
      fstring (
        "extension " ∷ repr (Json.str key) ∷ " maps to " ∷ type_name value ∷ ", not an object" ∷ [])
      ∷ entry_problems fs

  abbrev status_problem : Json → List String
  status_problem status =
      fstring (
        "bazaar.status "
        ∷ repr status
        ∷ " is not one of ['processing', 'rejected', 'success']"
        ∷ [])
      ∷ []

  -- `status is not None and status not in _BAZAAR_STATUSES`
  abbrev status_problems : Option Json → Validated
  status_problems none = problems []
  status_problems (some Json.null) = problems []
  status_problems (some (Json.str s)) =
      problems (if member s bazaar_statuses then [] else status_problem (Json.str s))
  status_problems (some (Json.arr vs)) = uncaught (unhashable (Json.arr vs))
  status_problems (some (Json.obj fs)) = uncaught (unhashable (Json.obj fs))
  status_problems (some status) = problems (status_problem status)

  abbrev reason_problems : Option Json → List String
  reason_problems none = []
  reason_problems (some Json.null) = []
  reason_problems (some (Json.str s)) = []
  reason_problems (some _) = "bazaar.rejectedReason is not a string" ∷ []

  abbrev around : List String → Validated → List String → Validated
  around before (uncaught exc) after = uncaught exc
  around before (problems ps) after = problems (before ++ ps ++ after)

  abbrev body_problems : Fields → Validated
  body_problems body = elim (as_dict (get body "bazaar")) [
    | none ↦ problems (entry_problems body)
    | some bazaar ↦
        around (entry_problems body) (status_problems (get bazaar "status"))
          (reason_problems (get bazaar "rejectedReason"))
  ]

  abbrev not_json : String → Validated
  not_json name = problems (fstring ("not base64-encoded JSON (" ∷ name ∷ ")" ∷ []) ∷ [])

  abbrev loaded_problems : Loaded → Validated
  loaded_problems (document (Json.obj body)) = body_problems body
  loaded_problems (document j) =
      problems (
        fstring ("decodes to " ∷ type_name j ∷ ", not an object keyed by extension name" ∷ []) ∷ [])
  loaded_problems (malformed name) = not_json name
  loaded_problems too_deep = uncaught "RecursionError"

  unfoldable pub extension_responses_problems : String → Validated
  unfolding get
  extension_responses_problems raw = elim (b64decode raw) [
    | invalid name ↦ not_json name
    | bytes decoded ↦ loaded_problems (loads decoded)
  ]

  abbrev numbered : ℕ → String → String
  numbered i text = fstring ("/verify answer " ∷ decimal (i + 1) ∷ ": " ∷ text ∷ [])

  unfoldable pub all_responses : ℕ → List String → Validated
  unfolding extension_responses_problems
  all_responses i [] = problems []
  all_responses i (raw ∷ raws) =
      let rest = all_responses (suc i) raws in
      elim (extension_responses_problems raw) [
        | uncaught exc ↦ uncaught exc
        | problems ps ↦ around (map (numbered i) ps) rest []
      ]

  abbrev judge_responses : List String → Validated → Call (Status × String)
  judge_responses raws (uncaught exc) s = (crashed exc, s)
  judge_responses raws (problems ps) s = (
    done (
        fail_if ps (join "; " (first_six ps)) (
          pass,
          fstring (decimal (length raws) ∷ " well-formed EXTENSION-RESPONSES value(s)" ∷ []),
        )),
    s,
  )

  -- `able` is `ctx.requirements is not None and ctx.signer is not None`.
  unfoldable pub fa_ext_001 : Bool → Call (Status × String)
  unfolding all_responses
  fa_ext_001 able s =
      if not able
      then (done (skip, "no --resource requirements / signer, so no /verify was made"), s)
      else elim s.extension_responses [
        | [] ↦ (done (skip, "no EXTENSION-RESPONSES header on /verify (optional, §7.2.1)"), s)
        | r ∷ rs ↦ judge_responses (r ∷ rs) (all_responses 0 (r ∷ rs)) s
      ]
