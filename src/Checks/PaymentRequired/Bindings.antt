-- ===== src/Checks/PaymentRequired/Bindings.antt =====
-- The bindings of a payment scheme to a family of networks, their `extra` fields, and RS-PR-019.
pub mod Foreign
use x402_conformance.Prelude.{
  ℕ, String, Bool, true, false, Option, none, some, List, [], ◌∷◌, ◌++◌, ◌==◌, string_eq, nat_eq,
  length, ◌&&◌, ◌||◌, not, is_none, any, keep, if◌then◌else◌, fstring, decimal, join,
}
use x402_conformance.Json.{Json, Fields, get, as_str, as_dict}
use x402_conformance.Probe.{Probe, member}
use x402_conformance.Diff.{sorted_keys}
use x402_conformance.Checks.Base.{Status, skip}
use x402_conformance.Checks.Handshake.{is_version_one}
use x402_conformance.Checks.PaymentRequired.{accepts_raw, v1_skip, inspect, collect, refuse}
use x402_conformance.Checks.PaymentRequired.Shape.{keys}
use x402_conformance.Checks.PaymentRequired.Rails.{namespace_of}

-- A scheme and the namespace of a CAIP-2 network.
abbrev pub Binding : Type 0
Binding = String × String

abbrev pub reserved_extra_keys : List String
reserved_extra_keys = "assetTransferMethod" ∷ "paymentFlow" ∷ []

abbrev pub binding_extra_keys : List (Binding × List String)
binding_extra_keys =
    (("exact", "eip155"), "name" ∷ "version" ∷ [])
    ∷ (("exact", "solana"), "feePayer" ∷ "recentBlockhash" ∷ "lastValidBlockHeight" ∷ "memo" ∷ [])
    ∷ (("exact", "hedera"), "feePayer" ∷ "executors" ∷ [])
    ∷ (("exact", "starknet"), "feePayer" ∷ [])
    ∷ (
      ("exact", "lnbtc"),
      "invoice" ∷ "requestHash" ∷ "requestBindingProfile" ∷ "requestBindingParams" ∷ [],
    )
    ∷ (
      ("exact", "cardano"),
      "confirmationPolicy" ∷ "datum" ∷ "deployment" ∷ "inputCommitment" ∷ "referenceKey"
          ∷ "referenceSignature" ∷ "blockchainIdentifier" ∷ "areFeesSponsored" ∷ "terms" ∷ "script"
          ∷ "scriptHash" ∷ "parameters" ∷ [],
    )
    ∷ (("upto", "eip155"), "name" ∷ "version" ∷ "facilitatorAddress" ∷ [])
    ∷ (
      ("upto", "solana"),
      "feePayer" ∷ "receiverAuthorizer" ∷ "withdrawDelay" ∷ "tokenProgram" ∷ "memo"
          ∷ "recentBlockhash" ∷ "lastValidBlockHeight" ∷ "recentSlot" ∷ "validAfter" ∷ [],
    )
    ∷ (
      ("batch-settlement", "eip155"),
      "receiverAuthorizer" ∷ "withdrawDelay" ∷ "name" ∷ "version" ∷ "minDeposit" ∷ "channelState"
          ∷ "voucherState" ∷ [],
    )
    ∷ (
      ("batch-settlement", "solana"),
      "feePayer" ∷ "receiverAuthorizer" ∷ "voucherSigner" ∷ "operator" ∷ "withdrawDelay"
          ∷ "tokenProgram" ∷ "memo" ∷ "recentBlockhash" ∷ "recentSlot" ∷ "minDeposit"
          ∷ "maxIdleSecs" ∷ "channelState" ∷ "voucherState" ∷ [],
    )
    ∷ (
      ("auth-capture", "eip155"),
      "name" ∷ "version" ∷ "authCaptureEscrow" ∷ "captureAuthorizer" ∷ "receiverAuthorizer"
          ∷ "policy" ∷ "captureDeadline" ∷ "refundDeadline" ∷ "feeRecipient" ∷ "minFeeBps"
          ∷ "maxFeeBps" ∷ "captureMode" ∷ "operatorType" ∷ "operators" ∷ [],
    )
    ∷ []

abbrev pub same_binding : Binding → Binding → Bool
same_binding (s, n) (t, m) = s == t && n == m

-- `_BINDING_EXTRA_KEYS.get(binding)`, in any such table
unfoldable pub keys_of : Binding → List (Binding × List String) → Option (List String)
keys_of b [] = none
keys_of b ((c, ks) ∷ rest) =
    let below = keys_of b rest in if same_binding c b then some ks else below

-- The test of membership in the union of the table's sets.
unfoldable pub in_some_binding : String → List (Binding × List String) → Bool
in_some_binding k [] = false
in_some_binding k ((c, ks) ∷ rest) = member k ks || in_some_binding k rest

unfoldable pub binding : Fields → Option Binding
unfolding namespace_of get
binding e = elim (as_str (get e "scheme")) [
  | none ↦ none
  | some scheme ↦ elim (namespace_of (get e "network")) [
    | none ↦ none
    | some namespace ↦ some (scheme, namespace)
  ]
]

-- A set of bindings, where the namespace `*` is a wildcard.
unfoldable pub binding_in : Option Binding → List Binding → Bool
binding_in none bindings = false
binding_in (some (scheme, family)) bindings =
    any (same_binding (scheme, family)) bindings || any (same_binding (scheme, "*")) bindings

-- The sorted set difference and intersection of RS-PR-019, before it is sorted.
unfoldable pub foreign_keys : List String → Fields → List String
unfolding in_some_binding
foreign_keys own extra =
    keep
      (λ k.
        not (member k reserved_extra_keys)
        && not (member k own)
        && in_some_binding k binding_extra_keys)
      (keys extra)

-- An entry that RS-PR-019 grades: its binding, the binding's keys, and its `extra`.
unfoldable pub graded : Fields → Option (Binding × List String × Fields)
unfolding binding keys_of get
graded e = elim (as_dict (get e "extra")) [
  | none ↦ none
  | some extra ↦ elim (binding e) [
    | none ↦ none
    | some b ↦ elim (keys_of b binding_extra_keys) [ none ↦ none | some own ↦ some (b, own, extra) ]
  ]
]

abbrev pub foreign_problem : ℕ → Binding → List String → List String
foreign_problem i b [] = []
foreign_problem i b (k ∷ ks) =
    fstring (
      "accepts["
      ∷ decimal i
      ∷ "] "
      ∷ b.0
      ∷ " on "
      ∷ b.1
      ∷ " carries extra field(s) from another binding: "
      ∷ join ", " (sorted_keys (k ∷ ks))
      ∷ [])
    ∷ []

abbrev pub problems_of : ℕ → Option (Binding × List String × Fields) → List String
problems_of i none = []
problems_of i (some (b, own, extra)) = foreign_problem i b (foreign_keys own extra)

unfoldable pub extra_problems : ℕ → Fields → List String
unfolding graded foreign_keys
extra_problems i e = problems_of i (graded e)

abbrev pub is_graded : Fields → Bool
is_graded e = not (is_none (graded e))

abbrev pub grade_extras : List Fields → Status × String
grade_extras accepts =
    if length (keep is_graded accepts) == 0
    then (skip, "no entry with extra on a binding this suite has a vocabulary for")
    else refuse (collect extra_problems 0 accepts) "" "; "
        " — extra does not match the declared binding"

unfoldable pub pr_019 : Probe → Status × String
unfolding accepts_raw graded extra_problems
pr_019 p = if is_version_one p then v1_skip else inspect grade_extras (accepts_raw p)
