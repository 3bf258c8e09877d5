-- ===== src/Checks/PathVariants/Build.antt =====
-- checks/path_variants.py: the variants of one URL. `isalnum` is Python's test of a character.
pub mod Laws
pub mod Letters
use Prim.Native.Char.{Char, code}
use Prim.Native.String.{[], ◌∷◌}
use x402_conformance.Prelude.{
  ℕ, String, Bool, true, false, Option, none, some, ◌==◌, string_eq, if◌then◌else◌, fstring, ◌||◌,
}
use mathlib.Core.List.{List, ◌++◌}
use x402_conformance.Checks.PathVariants.{
  Url, urlunsplit, PathVariant, absolute_form_label, control_label,
}
use x402_conformance.Checks.PathVariants.Paths.{
  rstrip_slash, lstrip_slash, rpartition_slash, contains_slash, last_char,
}
use x402_conformance.Checks.PathVariants.Escape.{encode_last_unreserved}

-- `_rebuild(split, path)`
unfoldable pub rebuild : Url → String → String
unfolding urlunsplit
rebuild split path = urlunsplit (record split { path = path })

-- A variant that is sent with the path of its own.
abbrev pub variant : Url → String → String → String → PathVariant
variant split label path rationale = record {
  label = label;
  url = rebuild split path;
  rationale = rationale;
  absolute_form = false;
}

abbrev pub one {ℓ} : {A : Type ℓ} → A → List A
one x = List.◌∷◌ x List.[]

module _ (isalnum : Char → Bool) where
  abbrev pub suffix_of : Option Char → String
  suffix_of none = "a"
  suffix_of (some c) = if isalnum c then c ∷ "" else "a"

  unfoldable pub in_wildcard_tail : String → String → String
  in_wildcard_tail path encoded =
      fstring (one path ++ one encoded ++ one (suffix_of (last_char path)))

  abbrev pub terminators : Url → List PathVariant
  terminators split =
      one (
        variant split "trailing line feed" (fstring (one split.path ++ one "%0A"))
          "x402#3036: a wildcard route regex without dotAll misses a path whose tail ends in a decoded LF, so the middleware never runs")
      ++ one (
          variant split "embedded line feed" (in_wildcard_tail split.path "%0A")
            "x402#3055: Python's `$` forgives a *trailing* newline, so only an LF with a character after it exposes a route compiled without re.DOTALL")
      ++ one (
          variant split "trailing carriage return" (fstring (one split.path ++ one "%0D"))
            "same terminator class as x402#3036; JavaScript's `.` excludes CR too, while Python's does not — so CR catches the JS side specifically")
      ++ one (
          variant split "unicode line separator" (in_wildcard_tail split.path "%E2%80%A8")
            "U+2028 is a line terminator to JavaScript's `.` but not to Python's — the other half of the dotAll gap in x402#3036")

  abbrev pub backslashes : Url → List PathVariant
  backslashes split =
      one (
        variant split "raw backslash" (in_wildcard_tail split.path "\\")
          "x402#3116: a raw backslash reached the '\\' -> '/' rewrite and split the middleware's view of the path while the router still dispatched it")
      ++ one (
          variant split "encoded backslash" (in_wildcard_tail split.path "%5C")
            "x402#3116 on an adapter that decodes before the middleware sees the path, so %5C arrives as the same backslash")

-- Only where the path has a separator to encode.
unfoldable pub separator : Url → List PathVariant
unfolding rstrip_slash lstrip_slash rpartition_slash contains_slash
separator split =
    let inner = lstrip_slash (rstrip_slash split.path) in
    let (head, tail) = rpartition_slash inner in
    if contains_slash inner
    then one (
        variant split "encoded separator" (fstring (one "/" ++ one head ++ one "%2F" ++ one tail))
          "x402#3044: matching the decoded path while routing on the escaped one lets %2F slip past the gate")
    else List.[]

unfoldable pub dot_segments : Url → List PathVariant
unfolding rpartition_slash
dot_segments split =
    let (head, tail) = rpartition_slash split.path in
    one (
      variant split "encoded current-directory segment"
        (fstring (one head ++ one "/%2E/" ++ one tail))
        "decoded, '%2E' is '.', which RFC 3986 §5.2.4 removes — the same resource, if the server normalises after decoding")
    ++ one (
        variant split "encoded parent-directory segment"
          (fstring (one head ++ one "/x/%2E%2E/" ++ one tail))
          "decoded, '%2E%2E' is '..', which RFC 3986 §5.2.4 resolves away — the same resource, if the server normalises after decoding")

abbrev pub unreserved_of : Url → Option String → List PathVariant
unreserved_of split none = List.[]
unreserved_of split (some encoded) = one (
    variant split "percent-encoded unreserved character" encoded
      "RFC 3986 §6.2.2.2: percent-encoded unreserved characters are equivalent to their decoded form — same resource")

abbrev pub absolute_form : Url → PathVariant
absolute_form split = record {
  label = absolute_form_label;
  url = rebuild split split.path;
  rationale =
      "x402#3577: the router dispatched an absolute-form target on its path while the payment middleware matched the raw URI and saw no protected route";
  absolute_form = true;
}

unfoldable pub control : Url → PathVariant
unfolding rstrip_slash
control split =
    variant split control_label
      (fstring (one (rstrip_slash split.path) ++ one "-x402-conformance-control"))
      "control: a path that should not exist. If this is served too, the endpoint answers everything and the other variants prove nothing."

module _ (isalnum : Char → Bool) where
  -- The bypass candidates, in their order.
  unfoldable pub candidates : Url → List PathVariant
  unfolding in_wildcard_tail separator dot_segments encode_last_unreserved
  candidates split =
      terminators isalnum split
      ++ backslashes isalnum split
      ++ separator split
      ++ dot_segments split
      ++ unreserved_of split (encode_last_unreserved split.path)
      ++ one (absolute_form split)

  unfoldable pub build_variants : Url → List PathVariant
  unfolding candidates control
  build_variants split =
      if split.path == "" || split.path == "/"
      then List.[]
      else candidates split ++ one (control split)
