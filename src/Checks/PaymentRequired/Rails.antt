-- ===== src/Checks/PaymentRequired/Rails.antt =====
-- The checks on the rail of each entry: network, amount, asset, recipient and scheme.
pub mod Verdicts
use x402_conformance.Prelude.{
  ℕ, String, Bool, true, false, Option, none, some, List, [], ◌∷◌, ◌++◌, ◌==◌, string_eq, nat_eq,
  ◌&&◌, ◌||◌, not, is_none, keep, length, if◌then◌else◌, starts_with, fstring, decimal, join,
}
use x402_conformance.Prelude.Int.{is_nonpositive}
use x402_conformance.Json.{Json, Fields, get, as_str, is_text, is_text_or, is_truthy, dict_or_empty}
use x402_conformance.Probe.{Probe, member, type_name}
use x402_conformance.Checks.Base.{Status, pass, skip}
use x402_conformance.Safety.Digits.{Unicode, int_text, partition_colon}
use x402_conformance.Checks.PaymentRequired.{
  accepts_raw, inspect, collect, fail_if, refuse, or_null,
}
use x402_conformance.Checks.PaymentRequired.Patterns.{is_caip2, is_atomic_amount, is_evm_address}

abbrev pub known_schemes : List String
known_schemes = "exact" ∷ "upto" ∷ "batch-settlement" ∷ "auth-capture" ∷ []

-- `isinstance(value, str) and test(value)`
abbrev pub str_and : (String → Bool) → Option Json → Bool
str_and test o = elim (as_str o) [ none ↦ false | some s ↦ test s ]

abbrev pub is_evm_entry : Fields → Bool
is_evm_entry e = str_and (λ network. starts_with network "eip155:") (get e "network")

-- `network.split(":", 1)[0]`, for a text with a colon
unfoldable pub namespace_of : Option Json → Option String
unfolding partition_colon
namespace_of o = elim (as_str o) [
  | none ↦ none
  | some network ↦
      let (namespace, behind) = partition_colon network in
      if is_none behind then none else some namespace
]

-- An entry of RS-PR-009 with its `extra`.
unfoldable pub eip712_extra : Fields → Option Fields
unfolding get
eip712_extra e =
    let extra = dict_or_empty (get e "extra") in
    if is_text (get e "scheme") "exact"
      && is_evm_entry e
      && is_text_or (get extra "assetTransferMethod") true "eip3009"
    then some extra
    else none

abbrev pub missing_domain : ℕ → List String → List String
missing_domain i [] = []
missing_domain i (k ∷ ks) =
    fstring ("accepts[" ∷ decimal i ∷ "].extra missing: " ∷ join ", " (k ∷ ks) ∷ []) ∷ []

unfoldable pub domain_problems : ℕ → Fields → List String
unfolding eip712_extra get
domain_problems i e = elim (eip712_extra e) [
  | none ↦ []
  | some extra ↦
      missing_domain i (keep (λ k. not (is_truthy (get extra k))) ("name" ∷ "version" ∷ []))
]

abbrev pub has_domain : Fields → Bool
has_domain e = not (is_none (eip712_extra e))

unfoldable pub pr_009 : Probe → Status × String
unfolding accepts_raw domain_problems eip712_extra
pr_009 p =
    inspect
      (λ accepts.
        if length (keep has_domain accepts) == 0
        then (skip, "no exact/eip3009 EVM entries")
        else refuse (collect domain_problems 0 accepts) "" "; "
            " — clients cannot build the EIP-712 signature without these")
      (accepts_raw p)

module _ (repr : Json → String) where
  unfoldable pub network_problems : ℕ → Fields → List String
  unfolding is_caip2 get
  network_problems i e =
      if str_and is_caip2 (get e "network") then [] else repr (or_null (get e "network")) ∷ []

  unfoldable pub pr_006 : Probe → Status × String
  unfolding accepts_raw network_problems
  pr_006 p =
      inspect
        (λ accepts.
          refuse (collect network_problems 0 accepts) "non-CAIP-2 network identifier(s): " ", " "")
        (accepts_raw p)

  unfoldable pub amount_problems : ℕ → Fields → List String
  unfolding is_atomic_amount get
  amount_problems i e = elim (as_str (get e "amount")) [
    | none ↦
        fstring (
          "accepts["
          ∷ decimal i
          ∷ "].amount is "
          ∷ type_name (or_null (get e "amount"))
          ∷ ", must be string"
          ∷ [])
        ∷ []
    | some amount ↦
        if is_atomic_amount amount
        then []
        else fstring (
            "accepts["
            ∷ decimal i
            ∷ "].amount "
            ∷ repr (Json.str amount)
            ∷ " is not an atomic integer string"
            ∷ [])
          ∷ []
  ]

  unfoldable pub pr_007 : Probe → Status × String
  unfolding accepts_raw amount_problems
  pr_007 p =
      inspect (λ accepts. refuse (collect amount_problems 0 accepts) "" "; " "") (accepts_raw p)

  unfoldable pub scheme_problems : ℕ → Fields → List String
  unfolding get
  scheme_problems i e = elim (as_str (get e "scheme")) [
    | none ↦ []
    | some scheme ↦
        if member scheme known_schemes
        then []
        else fstring ("accepts[" ∷ decimal i ∷ "].scheme=" ∷ repr (Json.str scheme) ∷ []) ∷ []
  ]

  unfoldable pub pr_017 : Probe → Status × String
  unfolding accepts_raw scheme_problems
  pr_017 p =
      inspect
        (λ accepts.
          refuse (collect scheme_problems 0 accepts) "unknown payment scheme(s): " ", "
            " — not one of ['auth-capture', 'batch-settlement', 'exact', 'upto']; no conformant client can pay these")
        (accepts_raw p)

  abbrev text_or_empty : Option String → String
  text_or_empty none = ""
  text_or_empty (some s) = s

  abbrev address_problem : ℕ → Option String → String → String → String → List String
  address_problem i network field value text =
      fstring (
        "accepts["
        ∷ decimal i
        ∷ "]."
        ∷ field
        ∷ "="
        ∷ repr (Json.str value)
        ∷ text
        ∷ text_or_empty network
        ∷ [])
      ∷ []

  -- The round of the inner loop for one field, whose value is a text.
  abbrev pub value_problem : ℕ → Option String → String → String → String → List String
  value_problem i network namespace field value =
      let looks_evm = is_evm_address value in
      if namespace == "eip155" && not looks_evm
      then address_problem i network field value " is not an EVM address but network is "
      else if (namespace == "solana" || namespace == "xrpl") && looks_evm
      then address_problem i network field value " is an EVM address but network is "
      else []

  abbrev pub namespace_problem : ℕ → Fields → String → String → List String
  namespace_problem i e namespace field = elim (as_str (get e field)) [
    | none ↦ []
    | some value ↦ value_problem i (as_str (get e "network")) namespace field value
  ]

  unfoldable pub namespace_problems : ℕ → Fields → List String
  unfolding namespace_of is_evm_address get
  namespace_problems i e = elim (namespace_of (get e "network")) [
    | none ↦ []
    | some namespace ↦
        namespace_problem i e namespace "payTo" ++ namespace_problem i e namespace "asset"
  ]

  unfoldable pub pr_013 : Probe → Status × String
  unfolding accepts_raw namespace_problems
  pr_013 p =
      inspect (λ accepts. refuse (collect namespace_problems 0 accepts) "" "; " "") (accepts_raw p)

  module _ (unicode : Unicode) where
    unfoldable pub price_problems : ℕ → Fields → List String
    unfolding int_text get
    price_problems i e = elim (as_str (get e "amount")) [
      | none ↦ []
      | some amount ↦ elim (int_text unicode amount) [
        | none ↦ []
        | some z ↦
            if is_nonpositive z
            then fstring
                ("accepts[" ∷ decimal i ∷ "].amount=" ∷ repr (Json.str amount) ∷ " is not > 0" ∷ [])
              ∷ []
            else []
      ]
    ]

    unfoldable pub pr_014 : Probe → Status × String
    unfolding accepts_raw price_problems
    pr_014 p =
        inspect
          (λ accepts.
            refuse (collect price_problems 0 accepts) "" "; "
              " — a zero/negative price is a logic hole")
          (accepts_raw p)

  -- The library `eth_utils`: its `is_checksum_address`, or nothing where it is not installed.
  module _ (is_checksum_address : Option (String → Bool)) (lower upper : String → String) where
    -- a[2:]
    abbrev pub behind_prefix : String → String
    behind_prefix (String.◌∷◌ c (String.◌∷◌ d s)) = s
    behind_prefix _ = ""

    abbrev pub is_mixed : String → Bool
    is_mixed a =
        not (behind_prefix a == lower (behind_prefix a))
        && not (behind_prefix a == upper (behind_prefix a))

    abbrev pub assets_of : List Fields → List String
    assets_of [] = []
    assets_of (e ∷ es) = elim (as_str (get e "asset")) [
      | none ↦ assets_of es
      | some asset ↦ asset ∷ assets_of es
    ]

    abbrev asset_problems : ℕ → Fields → List String
    asset_problems i e =
        if str_and is_evm_address (get e "asset") then [] else repr (or_null (get e "asset")) ∷ []

    abbrev checksum_verdict : (String → Bool) → List String → Status × String
    checksum_verdict valid mixed =
        let invalid = keep (λ a. not (valid a)) mixed in
        fail_if invalid (fstring ("bad EIP-55 checksum: " ∷ join ", " invalid ∷ [])) (elim mixed [
          | [] ↦ (pass, "format ok (addresses unchecksummed/lowercase)")
          | a ∷ rest ↦ (
            pass,
            fstring ("EIP-55 checksum valid (" ∷ decimal (length (a ∷ rest)) ∷ " mixed-case)" ∷ []),
          )
        ])

    unfoldable pub evm_assets : List Fields → Status × String
    unfolding is_evm_address get
    evm_assets evm =
        let bad = collect asset_problems 0 evm in
        fail_if bad (fstring ("malformed EVM asset address(es): " ∷ join ", " bad ∷ []))
          (elim is_checksum_address [
            | none ↦ (pass, "format ok (EIP-55 not checked: install [evm] for keccak)")
            | some valid ↦ checksum_verdict valid (keep is_mixed (assets_of evm))
          ])

    unfoldable pub pr_008 : Probe → Status × String
    unfolding accepts_raw evm_assets get
    pr_008 p =
        inspect
          (λ accepts. elim (keep is_evm_entry accepts) [
            | [] ↦ (skip, "no EVM accepts entries")
            | e ∷ es ↦ evm_assets (e ∷ es)
          ])
          (accepts_raw p)
