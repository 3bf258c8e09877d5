-- ===== src/Checks/PaymentRequired/Bindings/Foreign.antt =====
-- Which entries RS-PR-019 finds fault with.
use x402_conformance.Prelude.{String, true, false, ◌≡◌, Option, none, some, List, All, string_eq}
use x402_conformance.Json.{Fields}
use x402_conformance.Probe.{Probe, member}
use x402_conformance.Checks.PaymentRequired.Shape.{keys}
use x402_conformance.Checks.PaymentRequired.Bindings.{
  Binding, binding_extra_keys, reserved_extra_keys, in_some_binding, graded,
}

-- The key is another binding's: not reserved, not the entry's own, and in some binding's vocabulary.
abbrev pub IsForeign : List String → String → Type 0
IsForeign own k =
    (member k reserved_extra_keys ≡ false)
    × (member k own ≡ false)
    × (in_some_binding k binding_extra_keys ≡ true)

-- No key of the entry's `extra` is another binding's, if the entry is graded.
abbrev CleanAt : Option (Binding × List String × Fields) → Type 0
CleanAt none = Unit
CleanAt (some (b, own, extra)) = All (λ k. ¬ IsForeign own k) (keys extra)

abbrev pub Clean : Fields → Type 0
Clean e = CleanAt (graded e)
