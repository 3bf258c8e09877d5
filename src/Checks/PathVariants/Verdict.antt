-- ===== src/Checks/PathVariants/Verdict.antt =====
-- The verdict of checks/path_variants.py against what a bypass is.
use x402_conformance.Prelude.{
  ℕ, ◌≤◌, ◌<◌, String, ◌≡◌, ◌≢◌, ◌↔◌, ◌⊎◌, inl, inr, refl, Bool, true, Option, none, some, List, [],
  ◌∷◌, string_eq, arith, Any, any, keep, first, Bool-cases,
}
use x402_conformance.Checks.Base.{pass, fail, skip}
use x402_conformance.Checks.PathVariants.{
  Outcome, is_served, is_success, seen_or_any, is_control, is_probe, control_served, control_label,
  marker_of, classify_variants,
}

-- The marker was seen under the label, by the first entry for it.
abbrev pub Marked : List (String × Bool) → String → Type 0
Marked [] label = ⊥
Marked ((l, b) ∷ seen) label = (l ≡ label) × (b ≡ true) ⊎ (l ≢ label) × Marked seen label

abbrev pub MarkedIn : Option (List (String × Bool)) → String → Type 0
MarkedIn none label = Unit
MarkedIn (some seen) label = Marked seen label

abbrev pub Success : Option ℕ → Type 0
Success none = ⊥
Success (some code) = (200 ≤ code) × (code < 300)

-- Content came back: a 2xx answer with a body, and with the marker where one is given.
pub record Served (marker_seen : Option (List (String × Bool))) (o : Outcome) : Type 0 where
  pub success : Success o.code
  pub body : o.has_body ≡ true
  pub marked : MarkedIn marker_seen o.variant.label

marker_of_iff :
    (seen : List (String × Bool)) (label : String)
    → (marker_of seen label ≡ true) ↔ Marked seen label
marker_of_iff [] label = ground arith
marker_of_iff ((l, b) ∷ seen) label =
    ground (arith, string_eq.beq_iff l label, marker_of_iff seen label)

Success-iff : (code : Option ℕ) → (is_success code ≡ true) ↔ Success code
Success-iff code = ground arith

MarkedIn-iff :
    (m : Option (List (String × Bool))) (label : String)
    → (seen_or_any m label ≡ true) ↔ MarkedIn m label
MarkedIn-iff none label = ground arith
MarkedIn-iff (some seen) label = marker_of_iff seen label

is_served_iff :
    (m : Option (List (String × Bool))) (o : Outcome) → (is_served o m ≡ true) ↔ Served m o
unfolding is_served
is_served_iff m o =
    let code = Success-iff o.code in
    let label = MarkedIn-iff m o.variant.label in
    (
      λ h. record {
        success = ground (arith, code, label);
        body = ground (arith, code, label);
        marked = ground (arith, code, label);
      },
      λ h. ground (arith, code, label),
    )

module _ (m : Option (List (String × Bool))) where
  -- The first control probe was served: the endpoint answers any path.
  abbrev pub Catchall : List Outcome → Type 0
  Catchall [] = ⊥
  Catchall (o ∷ os) =
      (o.variant.label ≡ control_label) × Served m o
      ⊎ (o.variant.label ≢ control_label) × Catchall os

  -- A re-encoded path was served.
  abbrev pub Bypass : List Outcome → Type 0
  Bypass = Any (λ o. (o.variant.label ≢ control_label) × Served m o)

  Catchall-iff : (os : List Outcome) → (control_served (first is_control os) m ≡ true) ↔ Catchall os
  Catchall-iff [] = ground arith
  Catchall-iff (o ∷ os) =
      ground
        (arith, string_eq.beq_iff o.variant.label control_label, is_served_iff m o, Catchall-iff os)

  Bypass-iff :
      (os : List Outcome)
      → (any (λ p. true) (keep (λ p. is_served p m) (keep is_probe os)) ≡ true) ↔ Bypass os
  Bypass-iff [] = ground arith
  Bypass-iff (o ∷ os) =
      ground
        (arith, string_eq.beq_iff o.variant.label control_label, is_served_iff m o, Bypass-iff os)

  -- The check is skipped without probes and against an endpoint that answers any path; otherwise it
  -- fails exactly if a re-encoded path was served, and passes if none was.
  pub classify_variants_iff :
      (os : List Outcome)
      → (((classify_variants os m).0 ≡ skip) ↔ (os ≡ []) ⊎ Catchall os)
        × (((classify_variants os m).0 ≡ fail) ↔ (Catchall os → ⊥) × Bypass os)
        × (((classify_variants os m).0 ≡ pass) ↔ (os ≢ []) × (Catchall os → ⊥) × (Bypass os → ⊥))
  unfolding classify_variants
  classify_variants_iff [] =
      let empty : ◌≡◌ {A = List Outcome} [] [] = refl in
      (ground (arith, empty), ground (arith, empty), ground (arith, empty))
  classify_variants_iff (o ∷ os) =
      let caught = Catchall-iff (o ∷ os) in
      let passed = Bypass-iff (o ∷ os) in
      let filled : ◌≢◌ {A = List Outcome} (o ∷ os) [] = λ e. cc in
      elim (Bool-cases (control_served (first is_control (o ∷ os)) m)) [
        | inl catchall ↦
            let c = caught.0 catchall in
            rw (catchall, classify_variants)
              (ground (arith, c), ground (arith, c), ground (arith, c))
        | inr apart ↦
            let c : Catchall (o ∷ os) → ⊥ = λ h. ground (arith, apart, caught.1 h) in
            elim (Bool-cases
              (any (λ p. true) (keep (λ p. is_served p m) (keep is_probe (o ∷ os))))) [
                | inl bypass ↦
                    let b = passed.0 bypass in
                    rw (apart, bypass, classify_variants)
                      (
                        ground (arith, c, b, filled),
                        ground (arith, c, b, filled),
                        ground (arith, c, b, filled),
                      )
                | inr gated ↦
                    let b : Bypass (o ∷ os) → ⊥ = λ h. ground (arith, gated, passed.1 h) in
                    rw (apart, gated, classify_variants)
                      (
                        ground (arith, c, b, filled),
                        ground (arith, c, b, filled),
                        ground (arith, c, b, filled),
                      )
              ]
      ]
