-- ===== src/Checks/PathVariants.antt =====
-- checks/path_variants.py: RS-SEC-012, the verdict on the probes of re-encoded paths.
pub mod Paths
pub mod Build
pub mod Escape
pub mod Verdict
use x402_conformance.Prelude.{
  ℕ, String, Bool, true, false, Option, none, some, List, [], ◌∷◌, map, ◌==◌, string_eq, leb, ltb,
  ◌&&◌, ◌||◌, starts_with, not, keep, length, any, first, if◌then◌else◌, fstring, decimal, join,
}
use x402_conformance.Checks.Base.{Status, pass, fail, skip}

-- The parts of a URL as `urlsplit` gives them. The client refuses a URL without host before, so
-- `netloc` is not empty.
pub record Url : Type 0 where
  pub scheme : String
  pub netloc : String
  pub path : String
  pub query : String
  pub fragment : String

abbrev pub after : String → String → String
after mark text = if text == "" then "" else fstring (mark ∷ text ∷ [])

abbrev pub rooted : String → String
rooted path = if path == "" || starts_with path "/" then path else fstring ("/" ∷ path ∷ [])

-- `urlunsplit`
unfoldable pub urlunsplit : Url → String
urlunsplit url =
    let rest =
      fstring
        ("//" ∷ url.netloc ∷ rooted url.path ∷ after "?" url.query ∷ after "#" url.fragment ∷ []) in
    if url.scheme == "" then rest else fstring (url.scheme ∷ ":" ∷ rest ∷ [])

pub record PathVariant : Type 0 where
  pub label : String
  pub url : String
  pub rationale : String
  pub absolute_form : Bool

abbrev pub absolute_form_label : String
absolute_form_label = "absolute-form request target"

abbrev pub control_label : String
control_label = "control (nonexistent sibling)"

-- One probe: the variant, the status of its answer if there was one, and whether it had a body.
pub record Outcome : Type 0 where
  pub variant : PathVariant
  pub code : Option ℕ
  pub has_body : Bool

-- `marker_seen.get(label, False)`
abbrev pub marker_of : List (String × Bool) → String → Bool
marker_of [] label = false
marker_of ((l, b) ∷ seen) label = let rest = marker_of seen label in if l == label then b else rest

abbrev pub seen_or_any : Option (List (String × Bool)) → String → Bool
seen_or_any none label = true
seen_or_any (some seen) label = marker_of seen label

abbrev pub is_success : Option ℕ → Bool
is_success none = false
is_success (some code) = leb 200 code && ltb code 300

unfoldable pub is_served : Outcome → Option (List (String × Bool)) → Bool
is_served o marker_seen =
    if not (is_success o.code)
    then false
    else if not o.has_body
    then false
    else seen_or_any marker_seen o.variant.label

abbrev pub is_control : Outcome → Bool
is_control o = o.variant.label == control_label

abbrev pub is_probe : Outcome → Bool
is_probe o = not (o.variant.label == control_label)

abbrev pub code_text : Option ℕ → String
code_text none = "None"
code_text (some code) = decimal code

abbrev pub bypass_text : Outcome → String
bypass_text o =
    fstring
      (o.variant.label ∷ " -> HTTP " ∷ code_text o.code ∷ " (" ∷ o.variant.rationale ∷ ")" ∷ [])

-- `control and _is_served(control[0], marker_seen)`, for the first control of the list
abbrev pub control_served : Option Outcome → Option (List (String × Bool)) → Bool
control_served none marker_seen = false
control_served (some o) marker_seen = is_served o marker_seen

abbrev pub control_code : Option Outcome → String
control_code none = ""
control_code (some o) = code_text o.code

unfoldable pub classify_variants : List Outcome → Option (List (String × Bool)) → Status × String
unfolding is_served
classify_variants [] marker_seen = (skip, "target URL has no path to re-encode")
classify_variants (o ∷ os) marker_seen =
    let outcomes = o ∷ os in
    let control = first is_control outcomes in
    let tested = keep is_probe outcomes in
    let bypassed = keep (λ p. is_served p marker_seen) tested in
    if control_served control marker_seen
    then (
      skip,
      fstring (
          "endpoint served a deliberately-nonexistent sibling path (HTTP "
          ∷ control_code control
          ∷ ") — it answers any path, so a 2xx on a re-encoded path would not distinguish a bypass from a catch-all"
          ∷ []),
    )
    else if any (λ p. true) bypassed
    then (
      fail,
      fstring (
          decimal (length bypassed)
          ∷ " of "
          ∷ decimal (length tested)
          ∷ " re-encoded paths were served without payment while the canonical path returns 402: "
          ∷ join "; " (map bypass_text bypassed)
          ∷ []),
    )
    else (
      pass,
      fstring (
          "all "
          ∷ decimal (length tested)
          ∷ " re-encoded paths stayed gated (control path correctly not served)"
          ∷ []),
    )

-- `path_variants` is None when the canonical request met no paywall.
unfoldable pub sec_012 : Option (List Outcome) → Option (List (String × Bool)) → Status × String
unfolding classify_variants
sec_012 none marker_seen = (skip, "no 402 paywall on the canonical path — nothing to bypass")
sec_012 (some outcomes) marker_seen = classify_variants outcomes marker_seen
