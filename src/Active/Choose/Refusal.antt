-- ===== src/Active/Choose/Refusal.antt =====
-- When `choose_eip3009_requirement` of active.py returns None, and when it raises.
use x402_conformance.Prelude.{
  ◌≡◌, ◌≢◌, ◌⊎◌, refl, sym, ap, ◌∙◌, inl, inr, true, false, Option, none, some, List, [], ◌∷◌, ◌++◌,
  arith, All, Any,
}
use x402_conformance.Json.{Json, Fields, get}
use x402_conformance.Safety.{
  SafetyViolation, SafetyPolicy, is_violation, Result, ok, err, require_safe_network,
}
use x402_conformance.Safety.Digits.{Unicode}
use x402_conformance.Active.Choose.{is_eligible, settle_choice, choose_from, or_entry}
use x402_conformance.Active.Choose.Turns.{
  safe, skipped, denied, crashed, returned, kept, turn, choose-skipped, choose-denied,
  choose-crashed, choose-returned, choose-kept,
}
use x402_conformance.Active.Choose.Laws.{Payable, Offered, along}

module _ (unicode : Unicode) (policy : SafetyPolicy) where
  -- A network that the policy refuses with `e`.
  abbrev Refuses : SafetyViolation → Option Json → Type 0
  Refuses e network = require_safe_network unicode policy network ≡ err e

  -- The networks denied so far, each with the violation that was caught.
  abbrev pub AllDenied : List (Option Json) → Type 0
  AllDenied nets = All (λ n. (e : SafetyViolation) × Refuses e n × (is_violation e ≡ true)) nets

  AllDenied-concat :
      (nets : List (Option Json)) (n : Option Json) (e : SafetyViolation)
      → AllDenied nets
      → Refuses e n
      → is_violation e ≡ true
      → AllDenied (nets ++ n ∷ [])
  AllDenied-concat [] n e h r c = ((e, r, c), tt)
  AllDenied-concat (m ∷ nets) n e h r c = (h.0, AllDenied-concat nets n e h.1 r c)

  concat-not_nil : (nets : List (Option Json)) (n : Option Json) → nets ++ n ∷ [] ≢ []
  concat-not_nil [] n h = cc
  concat-not_nil (m ∷ nets) n h = cc

  -- No entry is an offer that the loop would weigh.
  abbrev pub NoOffer : List Json → Type 0
  NoOffer entries = (f : Fields) → Offered f entries → is_eligible f ≡ false

  NoOffer-cons :
      (j : Json) (entries : List Json)
      → ((f : Fields) → j ≡ Json.obj f → is_eligible f ≡ false)
      → NoOffer entries
      → NoOffer (j ∷ entries)
  NoOffer-cons j entries h rest f o = elim o [ inl here ↦ h f here | inr there ↦ rest f there ]

  settle_choice-eq-none :
      (nets : List (Option Json)) (fallback : Option Fields)
      → AllDenied nets
      → settle_choice unicode policy nets fallback ≡ ok none
      → (nets ≡ []) × (fallback ≡ none)
  unfolding settle_choice
  settle_choice-eq-none nets (some f) d h = cc
  settle_choice-eq-none [] none d h = (refl, refl)
  settle_choice-eq-none (net ∷ nets) none d h =
      let (e, r, c) = d.0 in
      let failed : ◌≡◌ {A = Result (Option Fields)} (err e) (ok none) =
        (rw (r, settle_choice) at h) in
      cc

  pub choose_from-eq-none :
      (entries : List Json) (nets : List (Option Json)) (fallback : Option Fields)
      → AllDenied nets
      → choose_from unicode policy entries nets fallback ≡ ok none
      → (nets ≡ []) × (fallback ≡ none) × NoOffer entries
  unfolding choose_from
  choose_from-eq-none [] nets fallback d h =
      let (no_nets, no_fallback) = settle_choice-eq-none nets fallback d h in
      (no_nets, no_fallback, λ f o. absurd o)
  choose_from-eq-none (Json.obj entry ∷ entries) nets fallback d h =
      elim (turn unicode policy entry) [
        | skipped no_offer ↦
            let (p, q, rest) =
              choose_from-eq-none entries nets fallback d
                (sym (choose-skipped unicode policy entry entries nets fallback no_offer) ∙ h) in
            (
              p,
              q,
              NoOffer-cons (Json.obj entry) entries
                  (along (λ f. is_eligible f ≡ false) entry no_offer) rest,
            )
        | denied x fits refused caught ↦
            let (p, _, _) =
              choose_from-eq-none entries (nets ++ get entry "network" ∷ []) fallback
                (AllDenied-concat nets (get entry "network") x d refused caught)
                (sym
                    (choose-denied unicode policy entry entries nets fallback x fits refused caught)
                  ∙ h) in
            absurd (concat-not_nil nets (get entry "network") p)
        | crashed x fits refused other ↦
            let failed =
              sym (choose-crashed unicode policy entry entries nets fallback x fits refused other)
              ∙ h in
            cc
        | returned s fits admitted first ↦
            let found =
              sym (choose-returned unicode policy entry entries nets fallback s fits admitted first)
              ∙ h in
            cc
        | kept s fits admitted second ↦
            let (_, q, _) = choose_from-eq-none entries nets (or_entry fallback entry) d (
              sym (choose-kept unicode policy entry entries nets fallback s fits admitted second)
              ∙ h) in
            absurd (filled fallback q)
      ]
    where
      filled : (o : Option Fields) → or_entry o entry ≡ none → ⊥
      filled none h = cc
      filled (some f) h = cc
  choose_from-eq-none (j ∷ entries) nets fallback d h =
      let (p, q, rest) = choose_from-eq-none entries nets fallback d h in
      (p, q, NoOffer-cons _ entries (λ f same. cc) rest)

  settle_choice-eq-err :
      (nets : List (Option Json)) (fallback : Option Fields) (e : SafetyViolation)
      → settle_choice unicode policy nets fallback ≡ err e
      → (fallback ≡ none) × Any (Refuses e) nets
  unfolding settle_choice
  settle_choice-eq-err nets (some f) e h = cc
  settle_choice-eq-err [] none e h = cc
  settle_choice-eq-err (net ∷ nets) none e h = (refl, inl (ground arith))

  Any-concat_last :
      (e : SafetyViolation) (nets : List (Option Json)) (n : Option Json)
      → Any (Refuses e) (nets ++ n ∷ [])
      → Any (Refuses e) nets ⊎ Refuses e n
  Any-concat_last e [] n h = elim h [ inl r ↦ inr r | inr r ↦ absurd r ]
  Any-concat_last e (m ∷ nets) n h = elim h [
    | inl r ↦ inl (inl r)
    | inr r ↦ elim (Any-concat_last e nets n r) [ inl s ↦ inl (inr s) | inr s ↦ inr s ]
  ]

  -- An offer that the loop weighs, on a network that the policy refuses with `e`.
  pub record Refused (e : SafetyViolation) (entries : List Json) : Type 0 where
    pub offer : Fields
    pub offered : Offered offer entries
    pub eligible : is_eligible offer ≡ true
    pub refused : safe unicode policy offer ≡ err e

  Refused-cons :
      (j : Json) (entries : List Json) (e : SafetyViolation)
      → Refused e entries
      → Refused e (j ∷ entries)
  Refused-cons j entries e r = record {
    offer = r.offer;
    offered = inr r.offered;
    eligible = r.eligible;
    refused = r.refused;
  }

  -- Where the exception comes from, and that nothing could be paid if it is a SafetyViolation.
  abbrev pub Raised : List Json → List (Option Json) → SafetyViolation → Type 0
  Raised entries nets e =
      (Refused e entries ⊎ Any (Refuses e) nets)
      × (is_violation e ≡ true → (f : Fields) → Offered f entries → ¬ Payable unicode policy f)

  Raised-cons :
      (j : Json) (entries : List Json) (nets : List (Option Json)) (e : SafetyViolation)
      → ((f : Fields) → j ≡ Json.obj f → ¬ Payable unicode policy f)
      → Raised entries nets e
      → Raised (j ∷ entries) nets e
  Raised-cons j entries nets e h (from, unpaid) = (
    elim from [ inl r ↦ inl (Refused-cons j entries e r) | inr n ↦ inr n ],
    λ c f o. elim o [ inl here ↦ h f here | inr there ↦ unpaid c f there ],
  )

  Refused-here :
      (entry : Fields) (entries : List Json) (e : SafetyViolation)
      → is_eligible entry ≡ true
      → safe unicode policy entry ≡ err e
      → Refused e (Json.obj entry ∷ entries)
  Refused-here entry entries e fits refused = record {
    offer = entry;
    offered = inl refl;
    eligible = fits;
    refused = refused;
  }

  Raised-denied :
      (entry : Fields) (entries : List Json) (nets : List (Option Json)) (e x : SafetyViolation)
      → is_eligible entry ≡ true
      → safe unicode policy entry ≡ err x
      → Raised entries (nets ++ get entry "network" ∷ []) e
      → Raised (Json.obj entry ∷ entries) nets e
  Raised-denied entry entries nets e x fits refused (from, unpaid) = (
    elim from [
      | inl r ↦ inl (Refused-cons (Json.obj entry) entries e r)
      | inr n ↦ elim (Any-concat_last e nets (get entry "network") n) [
        | inl old ↦ inr old
        | inr new ↦ inl (Refused-here entry entries e fits new)
      ]
    ],
    λ c f o. elim o [
      | inl here ↦
          along (λ g. ¬ Payable unicode policy g) entry (λ q. let w = q.admitted in cc) f here
      | inr there ↦ unpaid c f there
    ],
  )

  pub choose_from-Raised :
      (entries : List Json) (nets : List (Option Json)) (fallback : Option Fields)
      (e : SafetyViolation)
      → AllDenied nets
      → choose_from unicode policy entries nets fallback ≡ err e
      → (is_violation e ≡ true → fallback ≡ none) × Raised entries nets e
  unfolding choose_from
  choose_from-Raised [] nets fallback e d h =
      let (no_fallback, net) = settle_choice-eq-err nets fallback e h in
      (λ _. no_fallback, (inr net, λ c f o. absurd o))
  choose_from-Raised (Json.obj entry ∷ entries) nets fallback e d h =
      elim (turn unicode policy entry) [
        | skipped no_offer ↦
            let (p, r) =
              choose_from-Raised entries nets fallback e d
                (sym (choose-skipped unicode policy entry entries nets fallback no_offer) ∙ h) in
            (
              p,
              Raised-cons (Json.obj entry) entries nets e
                  (along (λ f. ¬ Payable unicode policy f) entry λ q. let w = q.eligible in cc) r,
            )
        | denied x fits refused caught ↦
            let (p, r) =
              choose_from-Raised entries (nets ++ get entry "network" ∷ []) fallback e
                (AllDenied-concat nets (get entry "network") x d refused caught)
                (sym
                    (choose-denied unicode policy entry entries nets fallback x fits refused caught)
                  ∙ h) in
            (p, Raised-denied entry entries nets e x fits refused r)
        | crashed x fits refused other ↦
            let same : x ≡ e = cc (
              sym (choose-crashed unicode policy entry entries nets fallback x fits refused other)
              ∙ h) in
            (λ c. cc, (inl (Refused-here entry entries e fits (refused ∙ ap err same)), λ c. cc))
        | returned s fits admitted first ↦
            let found =
              sym (choose-returned unicode policy entry entries nets fallback s fits admitted first)
              ∙ h in
            cc
        | kept s fits admitted second ↦
            let (p, (from, unpaid)) =
              choose_from-Raised entries nets (or_entry fallback entry) e d (
                sym (choose-kept unicode policy entry entries nets fallback s fits admitted second)
                ∙ h) in
            (
              λ c. absurd (filled fallback (p c)),
              (
                elim from [
                  | inl r ↦ inl (Refused-cons (Json.obj entry) entries e r)
                  | inr n ↦ inr n
                ],
                λ c. absurd (filled fallback (p c)),
              ),
            )
      ]
    where
      filled : (o : Option Fields) → or_entry o entry ≡ none → ⊥
      filled none h = cc
      filled (some f) h = cc
  choose_from-Raised (j ∷ entries) nets fallback e d h =
      let (p, r) = choose_from-Raised entries nets fallback e d h in
      (p, Raised-cons _ entries nets e (λ f same. cc) r)
