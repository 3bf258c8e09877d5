-- ===== src/Active/Choose/Laws.antt =====
-- `choose_eip3009_requirement` of active.py fails closed and prefers the `authorization` flow.
use x402_conformance.Prelude.{
  String, ◌≡◌, ◌⊎◌, refl, sym, ap, subst, ◌∙◌, inl, inr, true, Option, none, some, List, [], ◌∷◌,
  ◌++◌, arith, Any,
}
use x402_conformance.Json.{Json, Fields, get}
use x402_conformance.Safety.{SafetyPolicy, ok}
use x402_conformance.Safety.Digits.{Unicode}
use x402_conformance.Active.Choose.{
  is_eligible, flow_is_authorization, settle_choice, choose_from, or_entry,
}
use x402_conformance.Active.Choose.Turns.{
  safe, skipped, denied, crashed, returned, kept, turn, choose-skipped, choose-denied,
  choose-crashed, choose-returned, choose-kept,
}

abbrev pub Offered : Fields → List Json → Type 0
Offered entry accepts = Any (λ j. j ≡ Json.obj entry) accepts

pub obj-injective : (a b : Fields) → Json.obj a ≡ Json.obj b → a ≡ b
obj-injective a b h = cc

-- What is known of an entry is known of the same entry in the list.
pub along :
    (P : Fields → Type 0) (entry : Fields)
    → P entry
    → (f : Fields) → Json.obj entry ≡ Json.obj f
    → P f
along P entry p f e = subst P (obj-injective entry f e) p

module _ (unicode : Unicode) (policy : SafetyPolicy) where
  -- An entry that may be paid: it is an `exact` EIP-3009 offer, and the policy admits its network.
  pub record Payable (entry : Fields) : Type 0 where
    pub eligible : is_eligible entry ≡ true
    pub network : String
    pub admitted : safe unicode policy entry ≡ ok network

  -- No offer that may be paid has the flow `authorization`.
  abbrev pub NoneFirst : List Json → Type 0
  NoneFirst accepts =
      (entry : Fields)
      → Offered entry accepts
      → Payable entry
      → ¬ (flow_is_authorization entry ≡ true)

  -- Where the returned entry comes from.
  abbrev pub Picked : List Json → Option Fields → Fields → Type 0
  Picked entries fallback e =
      ((flow_is_authorization e ≡ true) × Offered e entries × Payable e)
      ⊎ (NoneFirst entries
          × ((fallback ≡ some e) ⊎ ((fallback ≡ none) × Offered e entries × Payable e)))

  -- An entry that is no first choice may stand in front.
  Picked-cons :
      (j : Json) (entries : List Json) (fallback : Option Fields) (e : Fields)
      → ((f : Fields) → j ≡ Json.obj f → Payable f → ¬ (flow_is_authorization f ≡ true))
      → Picked entries fallback e
      → Picked (j ∷ entries) fallback e
  Picked-cons j entries fallback e h (inl (first, offered, payable)) =
      inl (first, inr offered, payable)
  Picked-cons j entries fallback e h (inr (none_first, from)) = inr (
    (λ f o p. elim o [ inl here ↦ h f here p | inr there ↦ none_first f there p ]),
    elim from [
      | inl old ↦ inl old
      | inr (empty, offered, payable) ↦ inr (empty, inr offered, payable)
    ],
  )

  settle_choice-eq-some :
      (nets : List (Option Json)) (fallback : Option Fields) (e : Fields)
      → settle_choice unicode policy nets fallback ≡ ok (some e)
      → fallback ≡ some e
  unfolding settle_choice
  settle_choice-eq-some nets (some f) e h = cc
  settle_choice-eq-some [] none e h = cc
  settle_choice-eq-some (net ∷ nets) none e h = ground arith

  abbrev Second : Fields → Type 0
  Second f = Payable f → ¬ (flow_is_authorization f ≡ true)

  Picked-kept :
      (entry : Fields) (entries : List Json) (fallback : Option Fields) (e : Fields)
      → Payable entry
      → Second entry
      → Picked entries (or_entry fallback entry) e
      → Picked (Json.obj entry ∷ entries) fallback e
  Picked-kept entry entries fallback e p second picked =
      let more =
        Picked-cons (Json.obj entry) entries (or_entry fallback entry) e (along Second entry second)
          picked in
      elim more [
        | inl first ↦ inl first
        | inr (none_first, inl old) ↦ inr (none_first, from fallback old)
        | inr (none_first, inr (empty, _, _)) ↦ absurd (filled fallback empty)
      ]
    where
      from :
          (o : Option Fields)
          → or_entry o entry ≡ some e
          → (o ≡ some e) ⊎ ((o ≡ none) × Offered e (Json.obj entry ∷ entries) × Payable e)
      from none h =
          let same : entry ≡ e = cc in inr (refl, inl (ap Json.obj same), subst Payable same p)
      from (some f) h = inl h

      filled : (o : Option Fields) → or_entry o entry ≡ none → ⊥
      filled none h = cc
      filled (some f) h = cc

  pub choose_from-Picked :
      (entries : List Json) (nets : List (Option Json)) (fallback : Option Fields) (e : Fields)
      → choose_from unicode policy entries nets fallback ≡ ok (some e)
      → Picked entries fallback e
  unfolding choose_from
  choose_from-Picked [] nets fallback e h =
      inr (λ f o p. absurd o, inl (settle_choice-eq-some nets fallback e h))
  choose_from-Picked (Json.obj entry ∷ entries) nets fallback e h =
      elim (turn unicode policy entry) [
        | skipped no_offer ↦
            Picked-cons (Json.obj entry) entries fallback e
              (along Second entry λ p. let q = p.eligible in cc)
              (choose_from-Picked entries nets fallback e
                (sym (choose-skipped unicode policy entry entries nets fallback no_offer) ∙ h))
        | denied x fits refused caught ↦
            Picked-cons (Json.obj entry) entries fallback e
              (along Second entry λ p. let q = p.admitted in cc)
              (choose_from-Picked entries (nets ++ get entry "network" ∷ []) fallback e (
                sym (choose-denied unicode policy entry entries nets fallback x fits refused caught)
                ∙ h))
        | crashed x fits refused other ↦
            let failed =
              sym (choose-crashed unicode policy entry entries nets fallback x fits refused other)
              ∙ h in
            absurd (cc)
        | returned s fits admitted first ↦
            let same : entry ≡ e = cc (
              sym (choose-returned unicode policy entry entries nets fallback s fits admitted first)
              ∙ h) in
            let p : Payable entry = record { eligible = fits; network = s; admitted = admitted } in
            inl (
              subst (λ f. flow_is_authorization f ≡ true) same first,
              inl (ap Json.obj same),
              subst Payable same p,
            )
        | kept s fits admitted second ↦
            Picked-kept entry entries fallback e
              (record { eligible = fits; network = s; admitted = admitted }) (λ p first. cc)
              (choose_from-Picked entries nets (or_entry fallback entry) e (
                sym (choose-kept unicode policy entry entries nets fallback s fits admitted second)
                ∙ h))
      ]
  choose_from-Picked (j ∷ entries) nets fallback e h =
      Picked-cons _ entries fallback e (λ f same. cc) (choose_from-Picked entries nets fallback e h)
