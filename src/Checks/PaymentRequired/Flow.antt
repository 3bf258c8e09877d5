-- ===== src/Checks/PaymentRequired/Flow.antt =====
-- The payment flows: RS-PR-025, RS-PR-026 and RS-PR-027.
pub mod Permitted
pub mod Rating
pub mod Loop
pub mod Verdict
use x402_conformance.Prelude.{
  ℕ, suc, ◌+◌, String, Bool, true, false, Option, none, some, List, [], ◌∷◌, ◌++◌, map, ◌==◌,
  string_eq, nat_eq, ◌&&◌, ◌||◌, not, is_none, keep, length, if◌then◌else◌, fstring, decimal, join,
}
use x402_conformance.Json.{Json, Fields, get, as_dict, is_text, is_text_or, dict_or_empty}
use x402_conformance.Probe.{Probe, member}
use x402_conformance.Diff.{sorted_keys}
use x402_conformance.Checks.Base.{Status, pass, fail, skip, Ran, returned, raised}
use x402_conformance.Checks.Handshake.{is_version_one}
use x402_conformance.Checks.PaymentRequired.{
  accepts_raw, no_entries, v1_skip, inspect, collect, fail_if, or_null,
}
use x402_conformance.Checks.PaymentRequired.Shape.{keys}
use x402_conformance.Checks.PaymentRequired.Bindings.{Binding, binding, binding_in, same_binding}

abbrev pub payment_flows : List String
payment_flows = "authorization" ∷ "upfront" ∷ "escrow" ∷ []

abbrev pub pre_handler_default_bindings : List Binding
pre_handler_default_bindings = ("upto", "solana") ∷ ("auth-capture", "*") ∷ []

abbrev pub not_pre_handler_bindings : List Binding
not_pre_handler_bindings =
    ("batch-settlement", "solana") ∷ ("upto", "eip155") ∷ ("batch-settlement", "eip155") ∷ []

abbrev pub escrow_extra_signals : List String
escrow_extra_signals = "withdrawDelay" ∷ "receiverAuthorizer" ∷ []

abbrev pub flow_constrained : List Binding
flow_constrained =
    ("upto", "*")
    ∷ ("exact", "lnbtc")
    ∷ ("exact", "starknet")
    ∷ ("exact", "cardano")
    ∷ ("batch-settlement", "solana")
    ∷ ("auth-capture", "*")
    ∷ []

-- `extra` of an entry, or else the empty dict
abbrev pub extra_of : Fields → Fields
extra_of e = dict_or_empty (get e "extra")

abbrev pub flow_of : Fields → Option Json
flow_of e = get (extra_of e) "paymentFlow"

-- `isinstance(flow, str) and flow in _PAYMENT_FLOWS`
abbrev pub is_defined_flow : Json → Bool
is_defined_flow (Json.str s) = member s payment_flows
is_defined_flow _ = false

-- [name for name in the binding's signals], sorted, that the fields have
abbrev pub signals_of : Fields → List String
signals_of extra = sorted_keys (keep (λ k. member k escrow_extra_signals) (keys extra))

-- Why an entry is a candidate of RS-PR-026, if it is one.
unfoldable pub candidate_hint : Fields → Option String
unfolding binding binding_in sorted_keys get
candidate_hint e = elim (binding e) [
  | none ↦ elim (signals_of (extra_of e)) [
    | [] ↦ none
    | k ∷ ks ↦ some (fstring ("extra has " ∷ join ", " (k ∷ ks) ∷ []))
  ]
  | some b ↦
      if binding_in (some b) not_pre_handler_bindings
      then none
      else if binding_in (some b) pre_handler_default_bindings
      then some (fstring (b.0 ∷ " on " ∷ b.1 ∷ " defaults to escrow" ∷ []))
      else elim (signals_of (extra_of e)) [
        | [] ↦ none
        | k ∷ ks ↦ some (fstring ("extra has " ∷ join ", " (k ∷ ks) ∷ []))
      ]
]

unfoldable pub silent_problems : ℕ → Fields → List String
unfolding candidate_hint get
silent_problems i e = elim (candidate_hint e) [
  | none ↦ []
  | some hint ↦
      if is_none (flow_of e)
      then fstring ("accepts[" ∷ decimal i ∷ "]: " ∷ hint ∷ " but declares no paymentFlow" ∷ [])
        ∷ []
      else []
]

abbrev pub advisory : List String → String → String → Status × String → Status × String
advisory [] text closing rest = rest
advisory (p ∷ ps) text closing rest = (pass, fstring (text ∷ join "; " (p ∷ ps) ∷ closing ∷ []))

unfoldable pub pr_026 : Probe → Status × String
unfolding accepts_raw candidate_hint silent_problems
pr_026 p =
    if is_version_one p
    then v1_skip
    else inspect
        (λ accepts.
          let candidates = keep (λ e. not (is_none (candidate_hint e))) accepts in
          if length candidates == 0
          then (skip, "no entry resolves to a pre-handler flow this suite can infer")
          else advisory (collect silent_problems 0 accepts) "advisory: "
              " — CORE §6.1 wants paymentFlow present whenever the resolved flow is not `authorization`, so a client can see its funds are committed before the resource runs. scheme_upto_svm.md and scheme_auth_capture.md permit omitting it and defaulting to `escrow`, so this is not graded; declaring it explicitly costs nothing and removes the ambiguity"
              (
                pass,
                fstring (
                    decimal (length candidates)
                    ∷ " pre-handler entry/entries declare their flow"
                    ∷ []),
              ))
        (accepts_raw p)

-- extra.get("autoCapture") is True
abbrev pub is_true : Option Json → Bool
is_true (some (Json.bool b)) = b
is_true _ = false

-- `[text]` under a condition, and else nothing
abbrev pub when : Bool → String → List String
when condition text = if condition then text ∷ [] else []

-- The bindings whose declared flow is always `authorization`.
abbrev pub is_always_authorization : Binding → Bool
is_always_authorization b =
    same_binding b ("exact", "starknet")
    || same_binding b ("exact", "cardano")
    || same_binding b ("batch-settlement", "solana")

abbrev is_exact : Option Binding → Bool
is_exact none = false
is_exact (some b) = b.0 == "exact"

abbrev pub upfront_exact : Fields → Bool
upfront_exact e = is_exact (binding e) && is_text (flow_of e) "upfront"

unfoldable pub is_graded : Fields → Bool
unfolding binding binding_in get
is_graded e = binding_in (binding e) flow_constrained || upfront_exact e

-- What the loop has gathered.
pub record Grades : Type 0 where
  pub graded : ℕ
  pub problems : List String
  pub advisories : List String

abbrev pub numbered : ℕ → String → String
numbered i text = fstring ("accepts[" ∷ decimal i ∷ "]: " ∷ text ∷ [])

abbrev pub conclude_flows : Grades → Status × String
conclude_flows g =
    if g.graded == 0
    then (skip, "no entry on a binding with paymentFlow constraints")
    else fail_if g.problems (join "; " g.problems) (
        advisory g.advisories "advisory: " "" (
          pass,
          fstring (decimal g.graded ∷ " flow-constrained entry/entries match their binding" ∷ []),
        ))

-- `same` is Python's `==` on two decoded values.
module _ (same : Json → Json → Bool) where
  abbrev pub is_sibling : Fields → Fields → Bool
  is_sibling e o =
      is_text (get o "scheme") "exact"
      && same (or_null (get o "network")) (or_null (get e "network"))
      && same (or_null (get o "asset")) (or_null (get e "asset"))
      && is_text_or (flow_of o) true "authorization"

  -- Whether the entry number `i` has a sibling in the entries from number `j` on.
  abbrev pub has_sibling : ℕ → Fields → ℕ → List Fields → Bool
  has_sibling i e j [] = false
  has_sibling i e j (o ∷ os) = (not (j == i) && is_sibling e o) || has_sibling i e (suc j) os

  abbrev pub advises : List Fields → ℕ → Fields → List String
  advises accepts i e =
      when
        (upfront_exact e
          && not (binding_in (binding e) (("exact", "lnbtc") ∷ []))
          && not (has_sibling i e 0 accepts))
        (fstring (
          "accepts["
          ∷ decimal i
          ∷ "] offers exact as 'upfront' only — scheme_exact.md says `authorization` SHOULD be preferred and defines no refund for upfront"
          ∷ []))

-- `unhashable` is the `repr` of the TypeError for a value that Python cannot hash.
module _ (repr unhashable : Json → String) where
  abbrev undefined_problem : ℕ → Option Json → List String
  undefined_problem i none = []
  undefined_problem i (some flow) =
      if is_defined_flow flow
      then []
      else fstring ("accepts[" ∷ decimal i ∷ "].extra.paymentFlow=" ∷ repr flow ∷ []) ∷ []

  unfoldable pub flow_value_problems : ℕ → Fields → List String
  unfolding get
  flow_value_problems i e = undefined_problem i (flow_of e)

  unfoldable pub pr_025 : Probe → Status × String
  unfolding accepts_raw flow_value_problems get
  pr_025 p =
      if is_version_one p
      then v1_skip
      else inspect
          (λ accepts.
            let declared = keep (λ e. not (is_none (flow_of e))) accepts in
            let problems = collect flow_value_problems 0 accepts in
            if length declared == 0
            then (skip, "no entry declares extra.paymentFlow")
            else fail_if problems
                (fstring (
                  join "; " problems
                  ∷ " — not one of authorization, escrow, upfront. §6.1 says a client MUST NOT construct a payment for a paymentFlow it does not recognize and SHOULD skip the entry, so an invented value makes this entry unpayable by every conformant client"
                  ∷ []))
                (
                  pass,
                  fstring (
                      decimal (length declared)
                      ∷ " entry/entries declare a defined paymentFlow"
                      ∷ []),
                ))
          (accepts_raw p)

  -- `present and flow not in _PAYMENT_FLOWS`: the test hashes the value.
  abbrev pub is_undefined : Option Json → Ran Bool
  is_undefined none = returned false
  is_undefined (some (Json.arr vs)) = raised (unhashable (Json.arr vs))
  is_undefined (some (Json.obj fs)) = raised (unhashable (Json.obj fs))
  is_undefined (some flow) = returned (not (is_defined_flow flow))

  abbrev capture_problems : Option Json → Fields → List String
  capture_problems flow extra =
      when (not (is_none flow) && not (is_text flow "escrow" || is_text flow "authorization")) (
        fstring
          ("auth-capture allows 'escrow' or 'authorization', got " ∷ repr (or_null flow) ∷ []))
      ++ when (is_true (get extra "autoCapture"))
          "auth-capture v1.1 removed autoCapture; `autoCapture: true` MUST be rejected (invalid_auth_capture_evm_unsupported_payment_flow)"
      ++ when (is_text flow "authorization" && not (is_none (get extra "captureMode")))
          "captureMode MUST NOT be set when paymentFlow is 'authorization'"

  -- The tests behind the two early returns.
  unfoldable pub binding_problems : Binding → Option Json → Fields → List String
  unfolding binding_in get
  binding_problems (scheme, family) flow extra =
      let present = not (is_none flow) in
      when (scheme == "upto" && is_text flow "upfront")
        "upto MUST NOT use paymentFlow 'upfront' (scheme_upto.md)"
      ++ when (scheme == "upto" && family == "solana" && present && not (is_text flow "escrow")) (
          fstring (
            "SVM upto supports only 'escrow', got "
            ∷ repr (or_null flow)
            ∷ " (scheme_upto_svm.md)"
            ∷ []))
      ++ when (same_binding (scheme, family) ("exact", "lnbtc") && not (is_text flow "upfront")) (
          fstring (
            "exact on lnbtc MUST declare paymentFlow 'upfront', got "
            ∷ (if present then repr (or_null flow) else "no paymentFlow")
            ∷ " (scheme_exact_lnbtc.md)"
            ∷ []))
      ++ when
          (is_always_authorization (scheme, family)
            && present
            && not (is_text flow "authorization"))
          (fstring (
            scheme
            ∷ " on "
            ∷ family
            ∷ " is always 'authorization' when paymentFlow is present, got "
            ∷ repr (or_null flow)
            ∷ []))
      ++ (if scheme == "auth-capture" then capture_problems flow extra else [])

  -- The body of `_flow_problems`, from the flow and the `extra` that it reads off the entry.
  unfoldable pub rate_flow : Option Json → Fields → Option Binding → Ran (List String)
  unfolding binding_problems
  rate_flow flow extra b = elim (is_undefined flow) [
    | raised exc ↦ raised exc
    | returned undefined ↦
        if undefined
        then returned []
        else elim b [ none ↦ returned [] | some c ↦ returned (binding_problems c flow extra) ]
  ]

  unfoldable pub flow_problems : Fields → Option Binding → Ran (List String)
  unfolding rate_flow get
  flow_problems e b = rate_flow (flow_of e) (extra_of e) b

  module _ (same : Json → Json → Bool) where
    unfoldable pub grade_flows : List Fields → ℕ → List Fields → Grades → Ran Grades
    unfolding flow_problems is_graded binding
    grade_flows accepts i [] g = returned g
    grade_flows accepts i (e ∷ es) g = elim (is_graded e) [
      | false ↦ grade_flows accepts (suc i) es g
      | true ↦ elim (flow_problems e (binding e)) [
        | raised exc ↦ raised exc
        | returned found ↦ grade_flows accepts (suc i) es (record {
          graded = g.graded + 1;
          problems = g.problems ++ map (numbered i) found;
          advisories = g.advisories ++ advises same accepts i e;
        })
      ]
    ]

    abbrev pub grade_all : List Fields → Ran (Status × String)
    grade_all accepts =
        elim (grade_flows accepts 0 accepts
          (record { graded = 0; problems = []; advisories = [] })) [
            | raised exc ↦ raised exc
            | returned g ↦ returned (conclude_flows g)
          ]

    unfoldable pub pr_027 : Probe → Ran (Status × String)
    unfolding accepts_raw grade_flows
    pr_027 p = if is_version_one p then returned v1_skip else elim (accepts_raw p) [
      | none ↦ returned no_entries
      | some accepts ↦ elim accepts [ [] ↦ returned no_entries | e ∷ es ↦ grade_all (e ∷ es) ]
    ]
