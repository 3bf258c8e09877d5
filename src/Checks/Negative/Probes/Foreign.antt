-- ===== src/Checks/Negative/Probes/Foreign.antt =====
-- checks/negative.py: RS-SEC-003 and RS-SEC-004, a foreign resource and a short nonce.
use x402_conformance.Prelude.{
  String, none, some, [], ◌∷◌, nat_eq, string_eq, leb, ◌||◌, if◌then◌else◌, fstring, decimal,
}
use x402_conformance.Json.{set_field}
use x402_conformance.Active.Response.{ActiveResponse, served_resource, endpoint_crashed, settled_ok}
use x402_conformance.Checks.Base.{Status, fail, Ran, returned, raised}
use x402_conformance.Checks.Negative.{assert_rejected, fault_text}
use x402_conformance.Payload.{PaymentPayload}
use x402_conformance.Checks.Negative.Probes.{
  ActiveContext, with_key, build_payload, foreign_resource,
}

module _ (ctx : ActiveContext) where
  -- The verdict on a mismatched resource, before the shared one.
  unfoldable pub judge_foreign : ActiveResponse → Status × String
  unfolding endpoint_crashed served_resource settled_ok assert_rejected
  judge_foreign r =
      if endpoint_crashed r
      then (
        fail,
        fstring ("endpoint crashed on a mismatched-resource payment (" ∷ fault_text r ∷ ")" ∷ []),
      )
      else if served_resource r || settled_ok r
      then (
        fail,
        "served/settled a payment whose claimed `resource` differs from the requested one — no payment↔resource binding (cross-resource replay risk)",
      )
      else if r.marker_leaked
      then (fail, "resource marker leaked on the mismatched-resource rejection path")
      else assert_rejected ctx.repr r (402 ∷ [])

  abbrev pub foreign : PaymentPayload → PaymentPayload
  foreign payload = record payload {
    resource = some foreign_resource;
    accepted = with_key payload.accepted "resource" foreign_resource;
  }

  unfoldable pub sec_003 : Ran (Status × String)
  unfolding build_payload set_field judge_foreign
  sec_003 = elim (build_payload ctx ctx.requirements) [
    | none ↦ raised ctx.exc
    | some payload ↦ returned (judge_foreign (ctx.send (foreign payload)))
  ]

  abbrev pub with_nonce : String → PaymentPayload → PaymentPayload
  with_nonce nonce payload = record payload {
    authorization = record payload.authorization { nonce = nonce };
  }

  unfoldable pub sec_004 : Ran (Status × String)
  unfolding build_payload assert_rejected
  sec_004 = elim (build_payload ctx ctx.requirements) [
    | none ↦ raised ctx.exc
    | some payload ↦
        let r = ctx.send (with_nonce "0x1234" payload) in
        returned (
          if leb 500 r.status_code
          then (
            fail,
            fstring (
                "endpoint returned "
                ∷ decimal r.status_code
                ∷ " — crashed on a non-32-byte nonce"
                ∷ []),
          )
          else assert_rejected ctx.repr r (402 ∷ []))
  ]
