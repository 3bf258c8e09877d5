-- ===== src/Checks/Negative/Probes/Underpaid.antt =====
-- RS-NEG-005 of checks/negative.py: the payment that is sent is signed for less than the price.
use x402_conformance.Prelude.{
  ℕ, ◌/◌, ◌<◌, max, String, ◌≡◌, ◌≢◌, ◌↔◌, refl, sym, ◌∙◌, ap, inl, inr, subst, Bool, true, false,
  Option, none, some, [], ◌∷◌, arith, leb, Bool-cases, Option-cases, decimal, string_eq,
}
use x402_conformance.Prelude.Int.{ℤ, pos, negsuc}
use x402_conformance.Json.{Json, Fields, get}
use x402_conformance.Json.Laws.{get-set_field, get-set_field_other}
use x402_conformance.Payload.{
  PaymentPayload, sign_authorization, str_of, signature_recovers_to_authorizer,
}
use x402_conformance.Payload.Signed.{PaysFor, Timed, build-PaysFor}
use x402_conformance.Checks.Base.{pass, returned}
use x402_conformance.Checks.Negative.Verdict.{Rejected, assert_rejected_iff}
use x402_conformance.Checks.Negative.{assert_rejected}
use x402_conformance.Checks.Negative.Probes.{
  ActiveContext, Attempt, skipped, crashed, attack, asserted, relabelled, build_window,
  build_payload, required, cheap_offer, underpay, underpayment, neg_005, judge,
}

asserted-attack :
    (recovers : Option Bool) (p q : PaymentPayload)
    → asserted recovers p ≡ attack q
    → (recovers ≡ some true) × (p ≡ q)
asserted-attack none p q h = absurd (cc h)
asserted-attack (some false) p q h = absurd (cc h)
asserted-attack (some true) p q h = (refl, cc h)

module _ (ctx : ActiveContext) where
  -- The payment under the context's own offer, signed for another one.
  pub record Relabelled (offer : Fields) (sent : PaymentPayload) : Type 0 where
    pub paid : PaymentPayload
    pub pays : PaysFor ctx.lib offer paid
    pub fresh : paid.authorization.nonce ≡ ctx.nonce
    pub timed : Timed ctx.lib offer none none ctx.now paid
    pub recovers : signature_recovers_to_authorizer ctx.lib paid offer ≡ some true
    pub shows_own_offer : record paid { accepted = ctx.requirements } ≡ sent

  build_payload-PaysFor :
      (offer : Fields) (p : PaymentPayload)
      → build_payload ctx offer ≡ some p
      → PaysFor ctx.lib offer p
        × (p.authorization.nonce ≡ ctx.nonce)
        × (Timed ctx.lib offer none none ctx.now p)
  unfolding build_payload build_window
  build_payload-PaysFor offer p h =
      let (pays, fresh, extensions, url, timed) =
        build-PaysFor ctx.lib offer (some ctx.resource_url) ctx.extensions none none ctx.now
          ctx.nonce p h in
      (pays, fresh, timed)

  pub relabelled-Relabelled :
      (offer : Fields) (sent : PaymentPayload)
      → relabelled ctx offer (build_payload ctx offer) ≡ attack sent
      → Relabelled offer sent
  relabelled-Relabelled offer sent h = elim (Option-cases (build_payload ctx offer)) [
    | inl failed ↦ let e : crashed ≡ attack sent = rw failed at h in absurd (cc e)
    | inr (paid, built) ↦
        let e : asserted (signature_recovers_to_authorizer ctx.lib paid offer)
              (record paid { accepted = ctx.requirements })
            ≡ attack sent =
          rw built at h in
        let (recovers, same) = asserted-attack _ _ _ e in
        let (pays, fresh, timed) = build_payload-PaysFor offer paid built in
        record {
          paid = paid;
          pays = pays;
          fresh = fresh;
          timed = timed;
          recovers = recovers;
          shows_own_offer = same;
        }
  ]

  -- An underpayment: the price is a number above 1, and the payment that is sent shows the endpoint's
  -- own offer, but is signed for a positive amount below the price, to the endpoint's own recipient.
  pub record Underpaid (sent : PaymentPayload) : Type 0 where
    pub price : ℕ
    pub is_price : required ctx ≡ some (pos price)
    pub amount : ℕ
    pub positive : 0 < amount
    pub below_price : amount < price
    pub authorizes : sent.authorization.value ≡ decimal amount
    pub own_offer : sent.accepted ≡ ctx.requirements
    pub own_recipient : get ctx.requirements "payTo" ≡ some sent.authorization.to
    pub signed :
        sign_authorization ctx.lib (cheap_offer ctx price) sent.authorization ≡ some sent.signature

  cheap-Underpaid :
      (n : ℕ) (sent : PaymentPayload)
      → required ctx ≡ some (pos n)
      → 1 < n
      → Relabelled (cheap_offer ctx n) sent
      → Underpaid sent
  cheap-Underpaid n sent is_price above r =
      let pays = r.pays in
      let stored = get-set_field ctx.requirements "amount" (Json.str (decimal (max 1 (n / 2)))) in
      let shown : Json.str (decimal (max 1 (n / 2))) ≡ pays.amount =
        cc (sym stored ∙ pays.has_amount) in
      let recipient =
        get-set_field_other ctx.requirements "amount" "payTo" (Json.str (decimal (max 1 (n / 2))))
          amount≢recipient in
      subst Underpaid r.shows_own_offer (record {
        price = n;
        is_price = is_price;
        amount = max 1 (n / 2);
        positive = omega arith;
        below_price = omega (arith, above);
        authorizes = pays.pays_amount ∙ ap (str_of ctx.lib) (sym shown);
        own_offer = refl;
        own_recipient = sym recipient ∙ pays.to_recipient;
        signed = pays.signed;
      })
    where
      amount≢recipient : ◌≢◌ {A = String} "amount" "payTo"
      amount≢recipient h = ground (arith, string_eq.beq_iff "amount" "payTo")

  underpay-Underpaid :
      (z : Option ℤ) (sent : PaymentPayload)
      → required ctx ≡ z
      → underpay ctx z ≡ attack sent
      → Underpaid sent
  underpay-Underpaid none sent e h = absurd (cc h)
  underpay-Underpaid (some (negsuc n)) sent e h = absurd (cc h)
  underpay-Underpaid (some (pos n)) sent e h = elim (Bool-cases (leb n 1)) [
    | inl small ↦
        let k : skipped "cannot construct a positive underpayment for required amount <= 1"
            ≡ attack sent =
          rw small at h in
        absurd (cc k)
    | inr above ↦
        cheap-Underpaid n sent e (ground (arith, above))
          (relabelled-Relabelled (cheap_offer ctx n) sent (rw above at h))
  ]

  -- What RS-NEG-005 sends is an underpayment.
  underpayment-Underpaid : (sent : PaymentPayload) → underpayment ctx ≡ attack sent → Underpaid sent
  unfolding underpayment
  underpayment-Underpaid sent h = underpay-Underpaid (required ctx) sent refl h

  -- RS-NEG-005 passes exactly if it has a payment to send and the answer is a clean rejection with 402,
  -- and every payment that it sends is an underpayment.
  pub neg_005-Underpaid :
      (((detail : String) × (neg_005 ctx ≡ returned (pass, detail))) ↔ (
        (sent : PaymentPayload) × (underpayment ctx ≡ attack sent)
        × Rejected (ctx.send sent) (402 ∷ [])))
      × ((sent : PaymentPayload) → underpayment ctx ≡ attack sent → Underpaid sent)
  unfolding neg_005
  neg_005-Underpaid = (judged (underpayment ctx) refl, underpayment-Underpaid)
    where
      judged :
          (a : Attempt)
          → underpayment ctx ≡ a
          → ((detail : String) × (judge ctx (402 ∷ []) a ≡ returned (pass, detail)))
            ↔ ((sent : PaymentPayload) × (a ≡ attack sent) × Rejected (ctx.send sent) (402 ∷ []))
      judged (skipped why) e = (λ h. absurd (cc h.1), λ h. absurd (cc h.1))
      judged crashed e = (λ h. absurd (cc h.1), λ h. absurd (cc h.1))
      judged (attack p) e =
          let verdict = assert_rejected_iff ctx.repr (ctx.send p) (402 ∷ []) in
          (
            λ h. (p, refl, verdict.0.0 (cc h.1)),
            λ h.
                let same : h.0 ≡ p = cc (sym h.1) in
                let rejected = subst (λ q. Rejected (ctx.send q) (402 ∷ [])) same h.2 in
                (
                  (assert_rejected ctx.repr (ctx.send p) (402 ∷ [])).1,
                  (let status = verdict.0.1 rejected in cc),
                ),
          )
