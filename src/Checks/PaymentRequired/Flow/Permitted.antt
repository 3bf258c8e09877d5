-- ===== src/Checks/PaymentRequired/Flow/Permitted.antt =====
-- The flows that each binding permits, as a table, and what `_flow_problems` has to say of an entry
-- whose `paymentFlow` is left out or is one that the protocol defines.
use x402_conformance.Prelude.{
  String, refl, ◌&&◌, Bool, false, ◌≡◌, ◌↔◌, Option, none, some, List, [], ◌∷◌, arith, Any, ◌==◌,
  string_eq, if◌then◌else◌,
}
use x402_conformance.Json.{Json, Fields, get}
use x402_conformance.Checks.PaymentRequired.Bindings.{Binding, same_binding}
use x402_conformance.Checks.PaymentRequired.Flow.{binding_problems, is_true, when}

-- A declared flow, or none.
pub data Flow : Type 0 where
  omitted authorization upfront escrow : Flow

abbrev pub declared : Flow → Option Json
declared omitted = none
declared authorization = some (Json.str "authorization")
declared upfront = some (Json.str "upfront")
declared escrow = some (Json.str "escrow")

abbrev if_authorization : List Flow
if_authorization = omitted ∷ authorization ∷ []

-- The table: what an entry on the binding may declare.
abbrev pub permitted : Binding → List Flow
permitted b =
    if same_binding b ("upto", "solana")
    then omitted ∷ escrow ∷ []
    else if b.0 == "upto"
    then omitted ∷ authorization ∷ escrow ∷ []
    else if same_binding b ("exact", "lnbtc")
    then upfront ∷ []
    else if same_binding b ("exact", "starknet")
    then if_authorization
    else if same_binding b ("exact", "cardano")
    then if_authorization
    else if same_binding b ("batch-settlement", "solana")
    then if_authorization
    else if b.0 == "auth-capture"
    then omitted ∷ authorization ∷ escrow ∷ []
    else omitted ∷ authorization ∷ upfront ∷ escrow ∷ []

-- What auth-capture asks for besides: no `autoCapture`, and a capture mode only without
-- `authorization`.
pub record Captures (b : Binding) (flow : Flow) (extra : Fields) : Type 0 where
  pub no_auto : b.0 ≡ "auth-capture" → is_true (get extra "autoCapture") ≡ false
  pub no_mode : b.0 ≡ "auth-capture" → flow ≡ authorization → get extra "captureMode" ≡ none

when-eq-nil_iff : (c : Bool) (text : String) → (when c text ≡ []) ↔ (c ≡ false)
when-eq-nil_iff c text = ground arith

abbrev pub Permits : Binding → Flow → Type 0
Permits b flow = Any (λ f. f ≡ flow) (permitted b)

-- A text is one literal at most.
apart : (s a b : String) → (a == b) ≡ false → (s == a && s == b) ≡ false
apart s a b h = ground (arith, string_eq.beq_iff s a, string_eq.beq_iff s b, string_eq.beq_iff a b)

-- The schemes and the namespaces of the table are different texts.
schemes_apart :
    (s : String)
    → ((s == "upto" && s == "exact") ≡ false)
      × ((s == "upto" && s == "batch-settlement") ≡ false)
      × ((s == "upto" && s == "auth-capture") ≡ false)
      × ((s == "exact" && s == "batch-settlement") ≡ false)
      × ((s == "exact" && s == "auth-capture") ≡ false)
      × ((s == "batch-settlement" && s == "auth-capture") ≡ false)
schemes_apart s = (
  apart s "upto" "exact" refl,
  apart s "upto" "batch-settlement" refl,
  apart s "upto" "auth-capture" refl,
  apart s "exact" "batch-settlement" refl,
  apart s "exact" "auth-capture" refl,
  apart s "batch-settlement" "auth-capture" refl,
)

namespaces_apart :
    (n : String)
    → ((n == "lnbtc" && n == "starknet") ≡ false)
      × ((n == "lnbtc" && n == "cardano") ≡ false)
      × ((n == "starknet" && n == "cardano") ≡ false)
namespaces_apart n = (
  apart n "lnbtc" "starknet" refl,
  apart n "lnbtc" "cardano" refl,
  apart n "starknet" "cardano" refl,
)

module _ (repr unhashable : Json → String) where
  pub binding_problems-eq-nil_iff :
      (s n : String) (flow : Flow) (extra : Fields)
      → (binding_problems repr unhashable (s, n) (declared flow) extra ≡ [])
        ↔ (Permits (s, n) flow × Captures (s, n) flow extra)
  unfolding binding_problems
  binding_problems-eq-nil_iff s n omitted extra =
      ground (arith, string_eq.beq_iff s "auth-capture", schemes_apart s, namespaces_apart n)
  binding_problems-eq-nil_iff s n authorization extra =
      ground (arith, string_eq.beq_iff s "auth-capture", schemes_apart s, namespaces_apart n)
  binding_problems-eq-nil_iff s n upfront extra =
      ground (arith, string_eq.beq_iff s "auth-capture", schemes_apart s, namespaces_apart n)
  binding_problems-eq-nil_iff s n escrow extra =
      ground (arith, string_eq.beq_iff s "auth-capture", schemes_apart s, namespaces_apart n)
