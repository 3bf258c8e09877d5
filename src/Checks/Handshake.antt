-- ===== src/Checks/Handshake.antt =====
-- checks/handshake.py: the checks of the 402 handshake. `is_digit` and `unicode` are Python's
-- `str.isdigit` of one character and its decimal value; `lower` is `str.lower`; `repr` is `repr`.
pub mod Laws
use Prim.Native.Char.{code}
use Prim.Native.String
use x402_conformance.Prelude.{
  ℕ, String, Bool, true, false, Option, none, some, List, [], ◌∷◌, ◌==◌, string_eq, nat_eq, leb,
  ltb, ◌&&◌, ◌||◌, not, is_none, if◌then◌else◌, is_space, is_blank, starts_with, contains, fstring,
  decimal, join,
}
use x402_conformance.Prelude.Int.{ℤ, is_nonpositive}
use x402_conformance.Json.{Json, get}
use x402_conformance.Safety.Digits.{Unicode, int_text}
use x402_conformance.Active.Response.{header}
use x402_conformance.Probe.{Probe, legacy_headers_present}
use x402_conformance.Checks.Base.{
  Status, pass, fail, skip, ReasonCode, CheckReturn, plain, qualified, Ran, returned, raised,
}
use x402_conformance.Checks.PathVariants.Paths.{rstrip_slash}

-- s.endswith(t)
unfoldable pub ends_with : String → String → Bool
ends_with String.[] t = t == ""
ends_with (String.◌∷◌ c s) t = ends_with s t || String.◌∷◌ c s == t

-- `path` is `urlsplit(url).path.lower()`.
unfoldable pub facilitator_path_kind : String → Option String
unfolding ends_with rstrip_slash
facilitator_path_kind path =
    let p = rstrip_slash path in
    if ends_with p "/.well-known/x402"
    then some ".well-known/x402"
    else if ends_with p "/supported"
    then some "/supported"
    else if ends_with p "/verify"
    then some "/verify"
    else if ends_with p "/settle"
    then some "/settle"
    else none

abbrev pub marker_text : Option String → String
marker_text none = "None"
marker_text (some marker) = marker

unfoldable pub hs_001 : String → Probe → CheckReturn
unfolding facilitator_path_kind
hs_001 path p =
    let code = p.status_code in
    if code == 402
    then plain pass ""
    else if leb 200 code && ltb code 300
    then (if not (is_none (facilitator_path_kind path)) && is_none p.header_b64
        then qualified skip
            (fstring (
              "target path looks like a facilitator/discovery endpoint ("
              ∷ marker_text (facilitator_path_kind path)
              ∷ "), which correctly answers 200, not 402 — run the 'facilitator' subcommand against it instead of the passive resource 'check'"
              ∷ []))
            (some ReasonCode.endpoint_absent)
        else plain fail (
            fstring (
              "got "
              ∷ decimal code
              ∷ ": endpoint served content without payment — either not x402-protected or paywall is broken"
              ∷ [])))
    else if leb 500 code
    then plain skip (
        fstring (
          "endpoint returned server error HTTP "
          ∷ decimal code
          ∷ " — unreachable/inconclusive, not an x402 verdict"
          ∷ []))
    else plain fail (fstring ("expected 402, got " ∷ decimal code ∷ []))

unfoldable pub hs_002 : Probe → Status × String
hs_002 p =
    if not (p.status_code == 402)
    then (skip, "no 402 response to inspect")
    else if is_none p.header_b64
    then (fail, "402 without PAYMENT-REQUIRED header")
    else (pass, "")

unfoldable pub hs_003 : Probe → Status × String
hs_003 p =
    if is_none p.header_b64
    then (skip, "header not present")
    else elim p.decode_error [ some text ↦ (fail, text) | none ↦ (pass, "") ]

-- `raw is not None and raw.get("x402Version") == 1`, where True and 1.0 are 1 as well
abbrev pub is_one : Option Json → Bool
is_one (some (Json.bool b)) = b
is_one (some (Json.int (ℤ.pos n))) = n == 1
is_one (some (Json.float s)) = s == "1.0"
is_one _ = false

abbrev pub is_version_one : Probe → Bool
is_version_one p = elim p.raw [ none ↦ false | some fs ↦ is_one (get fs "x402Version") ]

unfoldable pub hs_004 : Probe → Status × String
unfolding get
hs_004 p = if is_none p.decoded then (skip, "nothing decodable") else elim p.json_error [
  | some text ↦ (fail, text)
  | none ↦
      if is_version_one p
      then (skip, "endpoint advertises x402 v1, not v2 — v2 schema validation N/A (see RS-PR-001)")
      else elim p.parse_error [
        | some text ↦ (fail, fstring ("schema violation: " ∷ text ∷ []))
        | none ↦ (pass, "")
      ]
]

unfoldable pub hs_005 : Probe → Status × String
unfolding legacy_headers_present
hs_005 p = elim (legacy_headers_present p) [
  | [] ↦ (pass, "")
  | h ∷ hs ↦ (
    fail,
    fstring (
        "legacy header(s) present: "
        ∷ join ", " (h ∷ hs)
        ∷ " — V1 leftovers; V2 uses PAYMENT-REQUIRED/-SIGNATURE/-RESPONSE"
        ∷ []),
  )
]

unfoldable pub hs_006 : Probe → Status × String
hs_006 p = if is_none p.parsed then (skip, "no parseable PaymentRequired header") else (pass, "")

-- s.split(","), from the characters of the part before
abbrev pub split_comma : String → List String
split_comma String.[] = "" ∷ []
split_comma (String.◌∷◌ c s) = elim (split_comma s) [
  | [] ↦ []
  | part ∷ parts ↦ if code c == b',' then "" ∷ part ∷ parts else String.◌∷◌ c part ∷ parts
]

-- s.lstrip(), s.rstrip() and s.strip()
unfoldable pub lstrip : String → String
lstrip String.[] = ""
lstrip (String.◌∷◌ c s) = let rest = lstrip s in if is_space (code c) then rest else String.◌∷◌ c s

unfoldable pub rstrip : String → String
rstrip String.[] = ""
rstrip (String.◌∷◌ c s) =
    let rest = rstrip s in if is_blank (String.◌∷◌ c s) then "" else String.◌∷◌ c rest

unfoldable pub strip : String → String
unfolding lstrip rstrip
strip s = lstrip (rstrip s)

-- s.split("=", 1)[1], for a text with an equals sign
abbrev pub after_equals : String → String
after_equals String.[] = ""
after_equals (String.◌∷◌ c s) = let rest = after_equals s in if code c == b'=' then s else rest

module _ (unicode : Unicode) (is_digit : ℕ → Bool) where
  all_digit : String → Bool
  all_digit String.[] = true
  all_digit (String.◌∷◌ c s) = is_digit (code c) && all_digit s

  -- value.isdigit()
  unfoldable pub is_digits : String → Bool
  unfolding all_digit
  is_digits s = not (s == "") && all_digit s

  -- `value.isdigit() and int(value) > 0`; `none` is the ValueError of `int`
  unfoldable pub positive_value : String → Option Bool
  unfolding is_digits int_text
  positive_value value =
      if not (is_digits value)
      then some false
      else elim (int_text unicode value) [ none ↦ none | some z ↦ some (not (is_nonpositive z)) ]

  -- The test of one directive.
  unfoldable pub positive_directive : String → Option Bool
  unfolding positive_value strip
  positive_directive part =
      let directive = strip part in
      if starts_with directive "max-age=" || starts_with directive "s-maxage="
      then positive_value (strip (after_equals directive))
      else some false

  unfoldable pub positive_in : List String → Option Bool
  unfolding positive_directive
  positive_in [] = some false
  positive_in (part ∷ parts) =
      let rest = positive_in parts in
      elim (positive_directive part) [
        | none ↦ none
        | some found ↦ if found then some true else rest
      ]

  unfoldable pub positive_max_age : String → Option Bool
  unfolding positive_in
  positive_max_age cache_control = positive_in (split_comma cache_control)

  module _ (lower repr : String → String) where
    abbrev pub cache_control_of : Probe → String
    cache_control_of p = lower (elim (header p.headers "cache-control") [ none ↦ "" | some s ↦ s ])

    -- The ValueError ends the check; `exc` is its `repr`.
    unfoldable pub hs_007 : String → Probe → Ran (Status × String)
    unfolding header positive_max_age
    hs_007 exc p =
        let cache_control = cache_control_of p in
        let cacheable : Status × String = (
          fail,
          fstring (
              "402 is actively cacheable (Cache-Control: "
              ∷ repr cache_control
              ∷ ") — a CDN/proxy could serve this paywall (and its payment details) to other clients"
              ∷ []),
        ) in
        if not (p.status_code == 402)
        then returned (skip, "no 402 response to inspect")
        else if cache_control == ""
        then returned (pass, "no Cache-Control header; explicit 'no-store' recommended")
        else if contains cache_control "no-store" || contains cache_control "private"
        then returned (pass, "")
        else if contains cache_control "public"
        then returned cacheable
        else elim (positive_max_age cache_control) [
          | none ↦ raised exc
          | some found ↦ if found then returned cacheable else returned (pass, "")
        ]
