-- ===== src/Checks/Negative/Probes/Redirected.antt =====
-- RS-NEG-007 of checks/negative.py: the payment that is sent goes to another recipient.
use x402_conformance.Prelude.{
  ℕ, Option, none, some-inj, ap, String, ◌≡◌, ◌≢◌, refl, sym, ◌∙◌, subst, some, arith, string_eq,
}
use mathlib.Core.Option
use x402_conformance.Prelude.Int.{ℤ, pos}
use x402_conformance.Json.{Json, get}
use x402_conformance.Json.Laws.{get-set_field, get-set_field_other}
use x402_conformance.Payload.{
  PaymentPayload, sign_authorization, str_of, timeout_of, add_int, decimal_int,
}
use x402_conformance.Checks.Negative.Probes.{
  ActiveContext, attack, attacker, redirected_offer, redirection,
}
use x402_conformance.Checks.Negative.Probes.Underpaid.{relabelled-Relabelled}

-- A redirected payment: it shows the endpoint's own offer, pays its full price from the signer's
-- address, in a window from 0 until the offer's time is over, with the nonce of the context, and is
-- signed so, but for the attacker as the recipient.
pub record Redirected (ctx : ActiveContext) (sent : PaymentPayload) : Type 0 where
  pub own_offer : sent.accepted ≡ ctx.requirements
  pub price : Json
  pub is_price : get ctx.requirements "amount" ≡ some price
  pub full_price : sent.authorization.value ≡ str_of ctx.lib price
  pub from_signer : sent.authorization.from ≡ ctx.lib.address
  pub fresh : sent.authorization.nonce ≡ ctx.nonce
  pub from_start : sent.authorization.valid_after ≡ decimal_int (pos 0)
  pub timeout : ℤ
  pub is_timeout : timeout_of ctx.lib (get ctx.requirements "maxTimeoutSeconds") ≡ some timeout
  pub until_timeout : sent.authorization.valid_before ≡ decimal_int (add_int ctx.now timeout)
  pub to_attacker : sent.authorization.to ≡ Json.str attacker
  pub signed :
      sign_authorization ctx.lib (redirected_offer ctx) sent.authorization ≡ some sent.signature

map-eq-some :
    (o : Option ℤ) (now : ℕ) (before : ℤ)
    → Option.map (add_int now) o ≡ some before
    → (z : ℤ) × (o ≡ some z) × (add_int now z ≡ before)
map-eq-some none now before h = absurd (cc h)
map-eq-some (some z) now before h = (z, refl, some-inj h)

recipient≢timeout : ◌≢◌ {A = String} "payTo" "maxTimeoutSeconds"
recipient≢timeout h = ground (arith, string_eq.beq_iff "payTo" "maxTimeoutSeconds")

recipient≢amount : ◌≢◌ {A = String} "payTo" "amount"
recipient≢amount h = ground (arith, string_eq.beq_iff "payTo" "amount")

-- Every payment that RS-NEG-007 sends goes to the attacker, and is otherwise the one that the endpoint
-- asks for: the offer is the endpoint's, the amount is its price, the payer is the signer, the nonce is
-- that of the context, the window lasts from 0 until the offer's time from now on is over, and the
-- signature is one of exactly this authorization.
pub redirection-Redirected :
    (ctx : ActiveContext) (sent : PaymentPayload)
    → redirection ctx ≡ attack sent
    → Redirected ctx sent
unfolding redirection
redirection-Redirected ctx sent h =
    let r = relabelled-Relabelled ctx (redirected_offer ctx) sent h in
    let pays = r.pays in
    let stored = get-set_field ctx.requirements "payTo" (Json.str attacker) in
    let kept =
      get-set_field_other ctx.requirements "payTo" "amount" (Json.str attacker) recipient≢amount in
    let timeout_kept =
      get-set_field_other ctx.requirements "payTo" "maxTimeoutSeconds" (Json.str attacker)
        recipient≢timeout in
    let recipient : Json.str attacker ≡ r.paid.authorization.to =
      cc (sym stored ∙ pays.to_recipient) in
    let (starts, (before, is_before, ends)) = r.timed in
    let (timeout, is_timeout, sum) = map-eq-some _ ctx.now before is_before in
    subst (Redirected ctx) r.shows_own_offer (record {
      own_offer = refl;
      price = pays.amount;
      is_price = sym kept ∙ pays.has_amount;
      full_price = pays.pays_amount;
      from_signer = pays.from_signer;
      fresh = r.fresh;
      from_start = starts;
      timeout = timeout;
      is_timeout = ap (timeout_of ctx.lib) (sym timeout_kept) ∙ is_timeout;
      until_timeout = ends ∙ ap decimal_int (sym sum);
      to_attacker = sym recipient;
      signed = pays.signed;
    })
