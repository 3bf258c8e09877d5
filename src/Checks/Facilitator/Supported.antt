-- ===== src/Checks/Facilitator/Supported.antt =====
-- FA-SUP-001 and FA-SUP-002: the capabilities that a facilitator declares.
use x402_conformance.Prelude.{
  ℕ, suc, String, Bool, false, Option, none, some, List, [], ◌∷◌, ◌++◌, ◌==◌, nat_eq, string_eq,
  ◌&&◌, ◌||◌, not, is_none, if◌then◌else◌, fstring, decimal, join,
}
use x402_conformance.Json.{Json, Fields, get, as_list, as_dict, as_str, is_truthy}
use x402_conformance.Active.Response.{Headers}
use x402_conformance.Models.Supported.{supported_of_json}
use x402_conformance.Probe.{Loaded, document, malformed, too_deep}
use x402_conformance.Checks.Base.{Status, fail, skip}
use x402_conformance.Checks.Handshake.{is_one}
use x402_conformance.Checks.PaymentRequired.{or_null, fail_if, passed}
use x402_conformance.Checks.PaymentRequired.Shape.{is_two, missing_from}
use x402_conformance.Checks.PaymentRequired.Patterns.{is_caip2}
use x402_conformance.Checks.Facilitator.{
  FaState, Client, Call, Outcome, done, http_error, crashed, get_supported, send, return, ◌>>=◌,
}

-- xs[:6]
abbrev pub first_six : List String → List String
first_six (a ∷ b ∷ c ∷ d ∷ e ∷ f ∷ rest) = a ∷ b ∷ c ∷ d ∷ e ∷ f ∷ []
first_six xs = xs

-- `loads` is `json.loads` on the body of a response; `explain` is the text of a ValidationError.
module _ (client : Client) (loads : String → Loaded) (explain : Json → String) where
  abbrev supported_fault : String → FaState → Outcome (Option Fields) × FaState
  supported_fault text s = (
    done none,
    record s { supported_error = some (fstring ("invalid /supported response: " ∷ text ∷ [])) },
  )

  abbrev keep_supported : Json → Option Fields → FaState → Outcome (Option Fields) × FaState
  keep_supported j none s = supported_fault (explain j) s
  keep_supported j (some body) s = (done (some body), record s { supported = some body })

  abbrev read_supported : Loaded → Call (Option Fields)
  read_supported (document j) s = keep_supported j (supported_of_json j) s
  read_supported (malformed text) s = supported_fault text s
  read_supported too_deep s = (crashed "RecursionError", s)

  abbrev on_supported : ℕ → String → Call (Option Fields)
  on_supported status body s =
      let noted = record s { supported_status = some status } in
      if not (status == 200) then (done none, noted) else read_supported (loads body) noted

  -- A client that cannot reach the endpoint leaves no status.
  abbrev after_get : Outcome (ℕ × Headers × String) × FaState → Outcome (Option Fields) × FaState
  after_get (done (status, headers, body), s) = on_supported status body s
  after_get (http_error e, s) = (http_error e, record s { supported_status = none })
  after_get (crashed e, s) = (crashed e, s)

  unfoldable pub supported_body : Call (Option Fields)
  unfolding send supported_of_json
  supported_body s = elim s.supported [
    | some body ↦ (done (some body), s)
    | none ↦ after_get (send client get_supported s)
  ]

  abbrev where_text : Option ℕ → String
  where_text none = "unreachable"
  where_text (some status) = fstring ("HTTP " ∷ decimal status ∷ [])

  abbrev is_ok : Option ℕ → Bool
  is_ok none = false
  is_ok (some status) = status == 200

  abbrev missing_keys : Fields → List String → Status × String
  missing_keys body [] =
      if is_none (as_list (get body "kinds")) || is_none (as_dict (get body "signers"))
      then (fail, "kinds must be array, signers must be object")
      else passed
  missing_keys body (k ∷ ks) =
      (fail, fstring ("/supported present but missing keys: " ∷ join ", " (k ∷ ks) ∷ []))

  abbrev or_text : Option String → String → String
  or_text none text = text
  or_text (some s) text = if s == "" then text else s

  abbrev judge_supported : Option Fields → Call (Status × String)
  judge_supported (some body) s =
      (done (missing_keys body (missing_from body ("kinds" ∷ "extensions" ∷ "signers" ∷ []))), s)
  judge_supported none s =
      if is_ok s.supported_status
      then (done (fail, or_text s.supported_error "GET /supported returned invalid JSON"), s)
      else (
        done (
          skip,
          fstring (
              "/supported not implemented ("
              ∷ where_text s.supported_status
              ∷ ") — optional per CORE §7.3; the endpoint is testable from the inline 402 requirements"
              ∷ []),
        ),
        s,
      )

  unfoldable pub fa_sup_001 : Call (Status × String)
  unfolding supported_body get
  fa_sup_001 = supported_body >>= judge_supported

  -- `repr` is `repr` of a decoded value.
  module _ (repr : Json → String) where
    abbrev kind_text : ℕ → List String → String
    kind_text i rest = fstring ("kinds[" ∷ decimal i ∷ fstring rest ∷ [])

    abbrev network_problems : ℕ → Option Json → Option String → List String
    network_problems i version none = kind_text i ("].network missing" ∷ []) ∷ []
    network_problems i version (some network) =
        if network == ""
        then kind_text i ("].network missing" ∷ []) ∷ []
        else if is_two version && not (is_caip2 network)
        then kind_text i
            ("].network " ∷ repr (Json.str network) ∷ " not CAIP-2 (required for v2)" ∷ [])
          ∷ []
        else []

    abbrev kind_problems : ℕ → Option Fields → List String
    kind_problems i none = kind_text i ("] not an object" ∷ []) ∷ []
    kind_problems i (some kind) =
        let version = get kind "x402Version" in
        (if is_one version || is_two version
          then []
          else kind_text i ("].x402Version " ∷ repr (or_null version) ∷ " is not 1 or 2" ∷ []) ∷ [])
        ++ (if is_truthy (get kind "scheme")
            then []
            else kind_text i ("].scheme missing" ∷ []) ∷ [])
        ++ network_problems i version (as_str (get kind "network"))

    abbrev all_kind_problems : ℕ → List Json → List String
    all_kind_problems i [] = []
    all_kind_problems i (k ∷ ks) =
        kind_problems i (as_dict (some k)) ++ all_kind_problems (suc i) ks

    unfoldable pub judge_kinds : Option Fields → Status × String
    unfolding is_caip2 get
    judge_kinds none = (skip, "no valid /supported.kinds to inspect")
    judge_kinds (some body) = elim (as_list (get body "kinds")) [
      | none ↦ (skip, "no valid /supported.kinds to inspect")
      | some kinds ↦
          let problems = all_kind_problems 0 kinds in
          fail_if problems (join "; " (first_six problems)) passed
    ]

    unfoldable pub fa_sup_002 : Call (Status × String)
    unfolding supported_body judge_kinds
    fa_sup_002 = supported_body >>= λ body. return (judge_kinds body)
