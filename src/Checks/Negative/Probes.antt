-- ===== src/Checks/Negative/Probes.antt =====
-- checks/negative.py: the checks that sign a payment and break one thing of it.
pub mod Underpaid
pub mod Offers
pub mod Foreign
pub mod Rejecting
pub mod Redirected
use x402_conformance.Prelude.{
  ℕ, ◌+◌, ◌-◌, ◌*◌, ◌/◌, ◌^◌, max, String, Bool, true, false, Option, none, some, List, [], ◌∷◌,
  ◌==◌, nat_eq, string_eq, leb, ◌||◌, not, if◌then◌else◌, fstring, decimal,
}
use x402_conformance.Prelude.Int.{ℤ, pos, negsuc, sub_ℕ}
use x402_conformance.Json.{Json, Fields, get, set_field, as_str}
use x402_conformance.Active.Response.{
  Headers, ActiveResponse, served_resource, endpoint_crashed, settled_ok,
}
use x402_conformance.Checks.Base.{Status, pass, fail, skip, Ran, returned, raised}
use x402_conformance.Checks.Negative.{assert_rejected, fault_text}
use x402_conformance.Payload.{
  PaymentPayload, Authorization, Library, build_exact_eip3009_payload,
  signature_recovers_to_authorizer, int_value, decimal_int,
}
use x402_conformance.Payload.Tamper.{tamper_signature, tamper_from}

-- The context of the active checks, with the library, the clock and the nonces that it draws on.
-- `exc` is the `repr` of the exception that a check raised.
pub record ActiveContext : Type 0 where
  pub resource_url : String
  pub requirements : Fields
  pub extensions : Fields
  pub send : PaymentPayload → ActiveResponse
  pub send_with_headers : PaymentPayload → Headers → ActiveResponse
  pub lib : Library
  pub now : ℕ
  pub nonce : String
  pub repr : String → String
  pub exc : String

abbrev pub attacker : String
attacker = "0x000000000000000000000000000000000000dEaD"

abbrev pub other_asset : String
other_asset = "0x1111111111111111111111111111111111111111"

abbrev pub eoa_asset : String
eoa_asset = "0xf39Fd6e51aad88F6F4ce6aB8827279cffFb92266"

abbrev pub foreign_resource : String
foreign_resource = "https://cross-resource-probe.example/other"

-- What a check comes to before it sends: it is skipped, it has raised, or it has a payment.
pub data Attempt : Type 0 where
  skipped : String → Attempt
  crashed : Attempt
  attack : PaymentPayload → Attempt

abbrev pub attack_or_crash : Option PaymentPayload → Attempt
attack_or_crash none = crashed
attack_or_crash (some payload) = attack payload

-- `assert signature_recovers_to_authorizer(payload, offer)`
abbrev pub asserted : Option Bool → PaymentPayload → Attempt
asserted (some true) payload = attack payload
asserted _ payload = crashed

-- `{**offer, key: value}`
abbrev pub with_key : Fields → String → String → Fields
with_key offer key value = set_field offer key (Json.str value)

module _ (ctx : ActiveContext) where
  -- `_build_payload`; an empty offer would stand for the context's
  unfoldable pub build_window : Fields → Option ℤ → Option ℤ → Option PaymentPayload
  unfolding build_exact_eip3009_payload
  build_window offer valid_after valid_before =
      build_exact_eip3009_payload ctx.lib offer (some ctx.resource_url) ctx.extensions valid_after
        valid_before ctx.now ctx.nonce

  unfoldable pub build_payload : Fields → Option PaymentPayload
  unfolding build_window
  build_payload offer = build_window offer none none

  -- A payment signed for `offer` is sent with the endpoint's own offer in `accepted`.
  abbrev pub relabelled : Fields → Option PaymentPayload → Attempt
  relabelled offer none = crashed
  relabelled offer (some payload) =
      asserted (signature_recovers_to_authorizer ctx.lib payload offer)
        (record payload { accepted = ctx.requirements })

  -- `assert_rejected(ctx.send(payload), …)`
  abbrev pub judge : List ℕ → Attempt → Ran (Status × String)
  judge allowed (skipped detail) = returned (skip, detail)
  judge allowed crashed = raised ctx.exc
  judge allowed (attack payload) = returned (assert_rejected ctx.repr (ctx.send payload) allowed)

  unfoldable pub neg_003 : Ran (Status × String)
  unfolding build_payload tamper_signature assert_rejected
  neg_003 = judge (402 ∷ []) (elim (build_payload ctx.requirements) [
    | none ↦ crashed
    | some payload ↦ attack_or_crash (tamper_signature payload)
  ])

  unfoldable pub neg_004 : Ran (Status × String)
  unfolding build_payload tamper_from assert_rejected
  neg_004 = judge (402 ∷ []) (elim (build_payload ctx.requirements) [
    | none ↦ crashed
    | some payload ↦ attack (tamper_from payload attacker)
  ])

  -- `int(ctx.requirements["amount"])`
  abbrev pub required : Option ℤ
  required = elim (get ctx.requirements "amount") [ none ↦ none | some j ↦ int_value ctx.lib j ]

  abbrev pub cheap_offer : ℕ → Fields
  cheap_offer amount = with_key ctx.requirements "amount" (decimal (max 1 (amount / 2)))

  abbrev pub underpay : Option ℤ → Attempt
  underpay none = crashed
  underpay (some (negsuc n)) =
      skipped "cannot construct a positive underpayment for required amount <= 1"
  underpay (some (pos n)) =
      if leb n 1
      then skipped "cannot construct a positive underpayment for required amount <= 1"
      else relabelled (cheap_offer n) (build_payload (cheap_offer n))

  unfoldable pub underpayment : Attempt
  unfolding build_payload signature_recovers_to_authorizer get set_field
  underpayment = underpay required

  unfoldable pub neg_005 : Ran (Status × String)
  unfolding underpayment assert_rejected
  neg_005 = judge (402 ∷ []) underpayment

  abbrev pub redirected_offer : Fields
  redirected_offer = with_key ctx.requirements "payTo" attacker

  unfoldable pub redirection : Attempt
  unfolding build_payload signature_recovers_to_authorizer set_field
  redirection = relabelled redirected_offer (build_payload redirected_offer)

  unfoldable pub neg_007 : Ran (Status × String)
  unfolding redirection assert_rejected
  neg_007 = judge (402 ∷ []) redirection

  abbrev pub asserted_own : Option PaymentPayload → Attempt
  asserted_own none = crashed
  asserted_own (some payload) =
      asserted (signature_recovers_to_authorizer ctx.lib payload ctx.requirements) payload

  unfoldable pub neg_008 : Ran (Status × String)
  unfolding build_window signature_recovers_to_authorizer assert_rejected
  neg_008 =
      judge (402 ∷ [])
        (asserted_own (build_window ctx.requirements (some (pos 0)) (some (sub_ℕ ctx.now 1))))

  unfoldable pub neg_009 : Ran (Status × String)
  unfolding build_window signature_recovers_to_authorizer assert_rejected
  neg_009 = judge (402 ∷ []) (
      asserted_own
        (build_window ctx.requirements (some (pos (ctx.now + 3600))) (some (pos (ctx.now + 7200)))))

  unfoldable pub neg_013 : Ran (Status × String)
  unfolding build_payload set_field assert_rejected
  neg_013 =
      judge (402 ∷ []) (attack_or_crash (build_payload (with_key ctx.requirements "amount" "1")))
