-- ===== src/Checks/PaymentRequired/Document.antt =====
-- The checks on the document as a whole: its resource, its two readings, its JSON, the invoices, and
-- the builder codes.
use x402_conformance.Prelude.{
  ℕ, String, Bool, false, Option, none, some, List, [], ◌∷◌, ◌++◌, map, ◌==◌, string_eq, nat_eq,
  ltb, ◌&&◌, ◌||◌, not, is_none, length, if◌then◌else◌, starts_with, fstring, decimal, join,
}
use x402_conformance.Json.{Json, Fields, get}
use x402_conformance.Models.Challenge.{ResourceInfo}
use x402_conformance.Jp402.{find_jp402, find_invoice_blocks, validate_invoice}
use x402_conformance.Probe.{Probe, size}
use x402_conformance.Checks.Base.{Status, pass, fail, skip}
use x402_conformance.Checks.PathVariants.Paths.{rstrip_slash}
use x402_conformance.Checks.PaymentRequired.{no_payload, fail_if, passed, or_null}
use x402_conformance.Checks.PaymentRequired.Patterns.{is_printable_ascii}

-- What `urlsplit` gives for a URL whose port is a number.
pub record UrlParts : Type 0 where
  pub scheme : String
  pub hostname : Option String
  pub username : Option String
  pub port : Option ℕ
  pub path : String
  pub query : String

-- The tuple of `_resource_identity`.
pub record Identity : Type 0 where
  pub scheme : String
  pub host : String
  pub port : ℕ
  pub path : String
  pub query : String

abbrev pub identity_beq : Identity → Identity → Bool
identity_beq a b =
    a.scheme == b.scheme
    && a.host == b.host
    && a.port == b.port
    && a.path == b.path
    && a.query == b.query

-- `split` is `urlsplit` with the properties that are read from its result, where `none` is the
-- ValueError; `lower` is `str.lower`.
module _ (split : String → Option UrlParts) (lower : String → String) where
  abbrev effective_port : String → Option ℕ → ℕ
  effective_port scheme (some port) = port
  effective_port scheme none = if scheme == "https" then 443 else 80

  abbrev stripped_path : String → String
  stripped_path path = if path == "" || path == "/" then "/" else rstrip_slash path

  unfoldable pub resource_identity : String → Option Identity
  unfolding rstrip_slash
  resource_identity url = elim (split url) [
    | none ↦ none
    | some parsed ↦
        let scheme = lower parsed.scheme in
        elim parsed.hostname [
          | none ↦ none
          | some host ↦
              if not (scheme == "http" || scheme == "https") || not (is_none parsed.username)
              then none
              else some (record {
                scheme = scheme;
                host = lower host;
                port = effective_port scheme parsed.port;
                path = stripped_path parsed.path;
                query = parsed.query;
              })
        ]
  ]

  -- `advertised is not None and advertised == requested`
  abbrev pub identity_matches : Option Identity → Option Identity → Bool
  identity_matches none b = false
  identity_matches (some a) none = false
  identity_matches (some a) (some b) = identity_beq a b

  unfoldable pub pr_003 : (Json → String) → String → Probe → Status × String
  unfolding resource_identity
  pr_003 repr target_url p = elim p.parsed [
    | none ↦ (skip, "no parsed PaymentRequired payload")
    | some parsed ↦
        if identity_matches (resource_identity parsed.resource.url) (resource_identity target_url)
        then passed
        else (
          fail,
          fstring (
              "advertised resource.url "
              ∷ repr (Json.str parsed.resource.url)
              ∷ " does not match requested "
              ∷ repr (Json.str target_url)
              ∷ " — clients may refuse or be misled"
              ∷ []),
        )
  ]

-- printable ASCII, max 32 chars
abbrev pub is_label : String → Bool
is_label s = not (ltb 32 (size s)) && is_printable_ascii s

abbrev name_problems : Option String → List String
name_problems none = []
name_problems (some name) =
    if is_label name then [] else "serviceName violates 'printable ASCII, max 32 chars'" ∷ []

abbrev icon_problems : Option String → List String
icon_problems none = []
icon_problems (some url) =
    if ltb 2048 (size url)
    then "iconUrl exceeds 2048 chars" ∷ []
    else if starts_with url "https://" || starts_with url "http://"
    then []
    else "iconUrl is not an absolute http(s) URL" ∷ []

module _ (repr : Json → String) where
  abbrev tag_problems : List String → List String
  tag_problems [] = []
  tag_problems (t ∷ ts) =
      (if is_label t
        then []
        else fstring ("tag " ∷ repr (Json.str t) ∷ " violates 'printable ASCII, max 32 chars'" ∷ [])
          ∷ [])
      ++ tag_problems ts

  abbrev tags_problems : Option (List String) → List String
  tags_problems none = []
  tags_problems (some tags) =
      (if ltb 5 (length tags)
        then fstring ("tags has " ∷ decimal (length tags) ∷ " entries (max 5)" ∷ []) ∷ []
        else [])
      ++ tag_problems tags

  unfoldable pub resource_problems : ResourceInfo → List String
  unfolding is_printable_ascii
  resource_problems r =
      name_problems r.service_name ++ tags_problems r.tags ++ icon_problems r.icon_url

  unfoldable pub pr_010 : Probe → Status × String
  unfolding resource_problems
  pr_010 p = elim p.parsed [
    | none ↦ (skip, "no parsed PaymentRequired payload")
    | some parsed ↦
        let problems = resource_problems parsed.resource in
        fail_if problems (join "; " problems) passed
  ]

  abbrev all_invoice_problems : List Fields → List String
  all_invoice_problems [] = []
  all_invoice_problems (invoice ∷ rest) = validate_invoice repr invoice ++ all_invoice_problems rest

  -- `openapi` is the session's document.
  unfoldable pub pr_016 : Option Fields → Probe → Status × String
  unfolding find_jp402 find_invoice_blocks validate_invoice
  pr_016 openapi p =
      let absent : Status × String = (skip, "no jp402 advertised (opt-in JP-rail check)") in
      elim p.raw [
        | none ↦ absent
        | some raw ↦ if is_none (find_jp402 raw) then absent else elim openapi [
          | none ↦ (skip, "jp402 advertised but /openapi.json was unreachable or not a JSON object")
          | some doc ↦ elim (find_invoice_blocks doc) [
            | [] ↦ (skip, "OpenAPI doc carries no x-jp402.invoice block")
            | i ∷ is ↦
                let problems = all_invoice_problems (i ∷ is) in
                fail_if problems (join "; " problems) (
                  pass,
                  fstring (
                      decimal (length (i ∷ is))
                      ∷ " x-jp402 invoice block(s) structurally valid"
                      ∷ []),
                )
          ]
        ]
      ]

  unfoldable pub pr_022 : Probe → Status × String
  pr_022 p =
      if is_none p.raw
      then no_payload
      else fail_if p.duplicate_json_keys
          (fstring (
            "challenge repeats the key(s) "
            ∷ join ", " (map (λ k. repr (Json.str k)) p.duplicate_json_keys)
            ∷ ". RFC 8259 permits this but leaves the meaning to the parser: last-wins, first-wins and outright rejection are all in use. On a payment challenge that is a field whose value depends on which client reads it"
            ∷ []))
          passed

unfoldable pub pr_021 : Probe → Status × String
pr_021 p =
    if is_none p.raw
    then no_payload
    else fail_if p.nonstandard_json_literals
        (fstring (
          "challenge contains the non-standard JSON literal(s) "
          ∷ join ", " p.nonstandard_json_literals
          ∷ " — RFC 8259 defines no such values. Python's decoder accepts them, Go's and the JSON specification's do not, so this challenge is unreadable to part of your clients while looking fine to the rest"
          ∷ []))
        passed

-- `same` is Python's `==` on two decoded values.
unfoldable pub pr_012 : (Json → Json → Bool) → Probe → Option Probe → Status × String
unfolding get
pr_012 same first none = (skip, "need two decodable probes to compare")
pr_012 same first (some second) = elim first.raw [
  | none ↦ (skip, "need two decodable probes to compare")
  | some a ↦ elim second.raw [
    | none ↦ (skip, "need two decodable probes to compare")
    | some b ↦ if same (or_null (get a "accepts")) (or_null (get b "accepts")) then passed else (
      fail,
      "accepts differ between two identical unpaid requests — dynamic pricing is allowed but should be deliberate and documented",
    )
  ]
]
