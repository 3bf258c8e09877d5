-- ===== src/Checks/PaymentRequired/Shape.antt =====
-- The checks on the shape of the challenge: the version, the resource, and the fields of each entry.
use x402_conformance.Prelude.{
  ℕ, String, Bool, false, Option, none, some, List, [], ◌∷◌, ◌++◌, ◌==◌, string_eq, nat_eq, not,
  is_none, keep, if◌then◌else◌, fstring, decimal, join,
}
use x402_conformance.Prelude.Int.{is_nat}
use x402_conformance.Json.{Json, Fields, get, as_dict, as_str}
use x402_conformance.Probe.{Probe, member}
use x402_conformance.Diff.{sorted_keys}
use x402_conformance.Checks.Base.{Status, pass, fail, skip}
use x402_conformance.Checks.Handshake.{is_version_one, is_one}
use x402_conformance.Checks.PaymentRequired.{
  accepts_raw, no_payload, v1_skip, inspect, collect, fail_if, passed, or_null,
}

-- `raw.get("x402Version") == 2`, where 2.0 is 2 as well
abbrev pub is_two : Option Json → Bool
is_two (some (Json.int z)) = is_nat z 2
is_two (some (Json.float s)) = s == "2.0"
is_two _ = false

abbrev pub required_accept_fields : List String
required_accept_fields =
    "scheme" ∷ "network" ∷ "amount" ∷ "asset" ∷ "payTo" ∷ "maxTimeoutSeconds" ∷ []

abbrev pub known_accept_fields : List String
known_accept_fields = "extra" ∷ required_accept_fields

-- [k for k in names if k not in entry]
abbrev pub missing_from : Fields → List String → List String
missing_from fs names = keep (λ name. is_none (get fs name)) names

unfoldable pub pr_002 : Probe → Status × String
unfolding get
pr_002 p = elim p.raw [
  | none ↦ no_payload
  | some raw ↦
      if is_one (get raw "x402Version") then v1_skip else elim (as_dict (get raw "resource")) [
        | none ↦ (fail, "resource object missing")
        | some resource ↦ elim (as_str (get resource "url")) [
          | none ↦ (fail, "resource.url missing or empty")
          | some url ↦ if url == "" then (fail, "resource.url missing or empty") else passed
        ]
      ]
]

unfoldable pub pr_004 : Probe → Status × String
unfolding accepts_raw
pr_004 p = elim p.raw [
  | none ↦ no_payload
  | some raw ↦ elim (accepts_raw p) [
    | none ↦ (fail, "accepts missing or not an array")
    | some [] ↦ (fail, "accepts is empty — no way to pay")
    | some (e ∷ es) ↦ passed
  ]
]

abbrev pub missing_problem : ℕ → List String → List String
missing_problem i [] = []
missing_problem i (k ∷ ks) =
    fstring ("accepts[" ∷ decimal i ∷ "] missing: " ∷ join ", " (k ∷ ks) ∷ []) ∷ []

unfoldable pub pr_005 : Probe → Status × String
unfolding accepts_raw get
pr_005 p =
    if is_version_one p
    then v1_skip
    else inspect
        (λ accepts.
          let problems =
            collect (λ i e. missing_problem i (missing_from e required_accept_fields)) 0 accepts in
          fail_if problems (join "; " problems) passed)
        (accepts_raw p)

-- The names of the fields, in the order of insertion.
abbrev pub keys : Fields → List String
keys Fields.end = []
keys (Fields.field k v fs) = k ∷ keys fs

abbrev pub unknown_problem : ℕ → List String → List String
unknown_problem i [] = []
unknown_problem i (k ∷ ks) =
    fstring
      ("accepts[" ∷ decimal i ∷ "] has non-v2 field(s): " ∷ join ", " (sorted_keys (k ∷ ks)) ∷ [])
    ∷ []

unfoldable pub pr_020 : Probe → Status × String
unfolding accepts_raw
pr_020 p =
    if is_version_one p
    then v1_skip
    else inspect
        (λ accepts.
          let problems =
            collect
              (λ i e. unknown_problem i (keep (λ k. not (member k known_accept_fields)) (keys e))) 0
              accepts in
          fail_if problems
            (fstring (
              join "; " problems
              ∷ " — outside the §5.1.2 PaymentRequirements set; a conformant client ignores them, so any payment-relevant data placed here is silently dropped"
              ∷ []))
            passed)
        (accepts_raw p)

module _ (repr : Json → String) where
  unfoldable pub pr_001 : Probe → Status × String
  unfolding get
  pr_001 p = elim p.raw [
    | none ↦ no_payload
    | some raw ↦
        let version = get raw "x402Version" in
        if is_two version
        then passed
        else if is_one version
        then (
          skip,
          "endpoint advertises x402 v1, a recognized prior protocol version — this suite tests v2, so v2-shape checks are skipped; the version-agnostic rail checks (network/asset/amount/extra) still ran",
        )
        else (fail, fstring ("x402Version is " ∷ repr (or_null version) ∷ ", expected 2" ∷ []))
  ]

  abbrev extension_problem : String → Option Fields → List String
  extension_problem key none =
      fstring ("extensions[" ∷ repr (Json.str key) ∷ "] is not an object" ∷ []) ∷ []
  extension_problem key (some value) = elim (missing_from value ("info" ∷ "schema" ∷ [])) [
    | [] ↦ []
    | k ∷ ks ↦
        fstring ("extensions[" ∷ repr (Json.str key) ∷ "] missing: " ∷ join ", " (k ∷ ks) ∷ []) ∷ []
  ]

  abbrev extension_problems : Fields → List String
  extension_problems Fields.end = []
  extension_problems (Fields.field key value fs) =
      extension_problem key (as_dict (some value)) ++ extension_problems fs

  abbrev grade_extensions : Option Json → Status × String
  grade_extensions none = (skip, "no extensions advertised")
  grade_extensions (some Json.null) = (skip, "no extensions advertised")
  grade_extensions (some (Json.obj Fields.end)) = (skip, "no extensions advertised")
  grade_extensions (some (Json.obj fs)) =
      let problems = extension_problems fs in
      fail_if problems (join "; " problems)
        (pass, "structural check only (info-vs-schema validation pending)")
  grade_extensions (some _) = (fail, "extensions is not an object")

  unfoldable pub pr_011 : Probe → Status × String
  unfolding get
  pr_011 p = elim p.raw [ none ↦ no_payload | some raw ↦ grade_extensions (get raw "extensions") ]
