-- ===== src/Active/Choose/Turns.antt =====
-- The five ways through one round of the loop in `choose_eip3009_requirement` (active.py).
use x402_conformance.Prelude.{
  String, ◌≡◌, refl, inl, inr, true, false, Option, some, List, [], ◌∷◌, ◌++◌, Bool-cases,
}
use x402_conformance.Json.{Json, Fields, get}
use x402_conformance.Safety.{
  SafetyViolation, SafetyPolicy, is_violation, Result, ok, err, require_safe_network,
}
use x402_conformance.Safety.Digits.{Unicode}
use x402_conformance.Active.Choose.{is_eligible, flow_is_authorization, choose_from, or_entry}

module _ (unicode : Unicode) (policy : SafetyPolicy) where
  abbrev pub safe : Fields → Result String
  safe entry = require_safe_network unicode policy (get entry "network")

  abbrev choose : List Json → List (Option Json) → Option Fields → Result (Option Fields)
  choose = choose_from unicode policy

  -- What an entry meets in the loop.
  pub data Turn (entry : Fields) : Type 0 where
    skipped : is_eligible entry ≡ false → Turn entry
    denied :
        (e : SafetyViolation)
        → is_eligible entry ≡ true
        → safe entry ≡ err e
        → is_violation e ≡ true
        → Turn entry
    crashed :
        (e : SafetyViolation)
        → is_eligible entry ≡ true
        → safe entry ≡ err e
        → is_violation e ≡ false
        → Turn entry
    returned :
        (s : String)
        → is_eligible entry ≡ true
        → safe entry ≡ ok s
        → flow_is_authorization entry ≡ true
        → Turn entry
    kept :
        (s : String)
        → is_eligible entry ≡ true
        → safe entry ≡ ok s
        → flow_is_authorization entry ≡ false
        → Turn entry

  turn_of :
      (entry : Fields) (r : Result String) → is_eligible entry ≡ true → safe entry ≡ r → Turn entry
  turn_of entry (ok s) h p = elim (Bool-cases (flow_is_authorization entry)) [
    | inl first ↦ returned s h p first
    | inr other ↦ kept s h p other
  ]
  turn_of entry (err e) h p = elim (Bool-cases (is_violation e)) [
    | inl caught ↦ denied e h p caught
    | inr other ↦ crashed e h p other
  ]

  pub turn : (entry : Fields) → Turn entry
  turn entry = elim (Bool-cases (is_eligible entry)) [
    | inl fits ↦ turn_of entry (safe entry) fits refl
    | inr other ↦ skipped other
  ]

  module _ (entry : Fields) (entries : List Json) (nets : List (Option Json))
      (fallback : Option Fields) where
    pub choose-skipped :
        is_eligible entry ≡ false
        → choose (Json.obj entry ∷ entries) nets fallback ≡ choose entries nets fallback
    unfolding choose_from
    choose-skipped h = rw h

    pub choose-denied :
        (e : SafetyViolation)
        → is_eligible entry ≡ true
        → safe entry ≡ err e
        → is_violation e ≡ true
        → choose (Json.obj entry ∷ entries) nets fallback
          ≡ choose entries (nets ++ get entry "network" ∷ []) fallback
    unfolding choose_from
    choose-denied e h p c = rw (h, p, c)

    pub choose-crashed :
        (e : SafetyViolation)
        → is_eligible entry ≡ true
        → safe entry ≡ err e
        → is_violation e ≡ false
        → choose (Json.obj entry ∷ entries) nets fallback ≡ err e
    unfolding choose_from
    choose-crashed e h p c = rw (h, p, c)

    pub choose-returned :
        (s : String)
        → is_eligible entry ≡ true
        → safe entry ≡ ok s
        → flow_is_authorization entry ≡ true
        → choose (Json.obj entry ∷ entries) nets fallback ≡ ok (some entry)
    unfolding choose_from
    choose-returned s h p f = rw (h, p, f)

    pub choose-kept :
        (s : String)
        → is_eligible entry ≡ true
        → safe entry ≡ ok s
        → flow_is_authorization entry ≡ false
        → choose (Json.obj entry ∷ entries) nets fallback
          ≡ choose entries nets (or_entry fallback entry)
    unfolding choose_from
    choose-kept s h p f = rw (h, p, f)
