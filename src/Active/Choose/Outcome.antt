-- ===== src/Active/Choose/Outcome.antt =====
-- What `choose_eip3009_requirement` of active.py promises to the code that signs payments.
use x402_conformance.Prelude.{
  String, ◌≡◌, ◌⊎◌, ◌↔◌, refl, sym, subst, ◌∙◌, inl, inr, true, Option, none, some, List, [], ◌∷◌,
  arith, starts_with,
}
use x402_conformance.Json.{Json, Fields, get, as_list, as_str}
use x402_conformance.Safety.{
  SafetyViolation, SafetyPolicy, default_safety_policy, allowed_evm_networks, is_violation, Result,
  ok, err,
}
use x402_conformance.Safety.Allowlist.{Listed, require_safe_network_iff}
use x402_conformance.Safety.Digits.{Unicode}
use x402_conformance.Active.Choose.{
  is_eligible, flow_is_authorization, choose_from, choose_eip3009_requirement, is_evm_text,
}
use x402_conformance.Active.Choose.Turns.{choose-skipped}
use x402_conformance.Active.Choose.Laws.{Payable, Offered, NoneFirst, choose_from-Picked}
use x402_conformance.Active.Choose.Refusal.{
  NoOffer, Refused, choose_from-eq-none, choose_from-Raised,
}

-- `raw.get("accepts")`, where a challenge or a list that is not there is empty.
abbrev pub list_or_empty : Option (List Json) → List Json
list_or_empty none = []
list_or_empty (some l) = l

abbrev pub accepts_of : Option Fields → List Json
accepts_of none = []
accepts_of (some raw) = list_or_empty (as_list (get raw "accepts"))

module _ (unicode : Unicode) (policy : SafetyPolicy) where
  abbrev run : List Json → Result (Option Fields)
  run entries = choose_from unicode policy entries [] none

  choose-run :
      (raw : Option Fields) → choose_eip3009_requirement unicode policy raw ≡ run (accepts_of raw)
  unfolding choose_eip3009_requirement get
  choose-run none = refl
  choose-run (some Fields.end) = refl
  choose-run (some (Fields.field k v raw)) = over (as_list (get (Fields.field k v raw) "accepts"))
    where
      over :
          (o : Option (List Json))
          → ◌≡◌ {A = Result (Option Fields)}
              (elim o [ none ↦ ok none | some accepts ↦ run accepts ])
              (run (list_or_empty o))
      over none = refl
      over (some accepts) = refl

  -- A chosen entry is one of the advertised ones and may be paid: it is an `exact` EIP-3009 offer
  -- and the policy admits its network. Its flow is `authorization`, unless no entry that may be paid
  -- has that flow.
  pub chosen-Payable :
      (raw : Option Fields) (e : Fields)
      → choose_eip3009_requirement unicode policy raw ≡ ok (some e)
      → Offered e (accepts_of raw)
        × Payable unicode policy e
        × ((flow_is_authorization e ≡ true) ⊎ NoneFirst unicode policy (accepts_of raw))
  chosen-Payable raw e h =
      elim (choose_from-Picked unicode policy (accepts_of raw) [] none e
        (sym (choose-run raw) ∙ h)) [
          | inl (first, offered, payable) ↦ (offered, payable, inl first)
          | inr (none_first, inl old) ↦ cc
          | inr (none_first, inr (_, offered, payable)) ↦ (offered, payable, inr none_first)
        ]

  NoOffer-run : (entries : List Json) → NoOffer unicode policy entries → run entries ≡ ok none
  unfolding choose_from
  NoOffer-run [] h = refl
  NoOffer-run (Json.obj entry ∷ entries) h =
      choose-skipped unicode policy entry entries [] none (h entry (inl refl))
      ∙ NoOffer-run entries (λ f o. h f (inr o))
  NoOffer-run (j ∷ entries) h = NoOffer-run entries (λ f o. h f (inr o))

  -- None is returned exactly when no advertised entry is an `exact` EIP-3009 offer on an EVM network
  -- with a defined flow, a name and a version. So a denied network never passes as "nothing to pay".
  pub choose-eq-none_iff :
      (raw : Option Fields)
      → (choose_eip3009_requirement unicode policy raw ≡ ok none)
        ↔ NoOffer unicode policy (accepts_of raw)
  choose-eq-none_iff raw = (
    λ h.
        (choose_from-eq-none unicode policy (accepts_of raw) [] none tt
          (sym (choose-run raw) ∙ h)).2,
    λ h. choose-run raw ∙ NoOffer-run (accepts_of raw) h,
  )

  -- An exception is the policy's refusal of an advertised offer, and if it is a SafetyViolation no
  -- advertised entry may be paid.
  pub choose-eq-err :
      (raw : Option Fields) (e : SafetyViolation)
      → choose_eip3009_requirement unicode policy raw ≡ err e
      → Refused unicode policy e (accepts_of raw)
        × (is_violation e ≡ true
            → (f : Fields) → Offered f (accepts_of raw)
            → ¬ Payable unicode policy f)
  choose-eq-err raw e h =
      let (from, unpaid) =
        (choose_from-Raised unicode policy (accepts_of raw) [] none e tt
          (sym (choose-run raw) ∙ h)).1 in
      (elim from [ inl r ↦ r | inr n ↦ absurd n ], unpaid)

eligible_evm : (e : Fields) → is_eligible e ≡ true → is_evm_text (as_str (get e "network")) ≡ true
unfolding is_eligible
eligible_evm e h = ground arith

-- Under the default policy a chosen entry is on one of the five EVM test networks of the allowlist.
pub chosen_default :
    (unicode : Unicode) (raw : Option Fields) (e : Fields)
    → choose_eip3009_requirement unicode default_safety_policy raw ≡ ok (some e)
    → (s : String) × (as_str (get e "network") ≡ some s) × Listed s allowed_evm_networks
chosen_default unicode raw e h =
    let (_, p, _) = chosen-Payable unicode default_safety_policy raw e h in
    let (text, _, admitted) =
      (require_safe_network_iff unicode default_safety_policy (get e "network") p.network).0
        p.admitted in
    let evm : starts_with p.network "eip155:" ≡ true =
      subst (λ o. is_evm_text o ≡ true) text (eligible_evm e p.eligible) in
    (p.network, text, elim admitted [ inl (_, l, _) ↦ l | inr (other, _, _) ↦ absurd (cc) ])
