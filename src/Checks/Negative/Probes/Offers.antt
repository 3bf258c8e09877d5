-- ===== src/Checks/Negative/Probes/Offers.antt =====
-- checks/negative.py: the checks that name another token, network, amount or version.
use x402_conformance.Prelude.{
  ◌+◌, ◌-◌, ◌*◌, ◌^◌, String, Bool, Option, none, some, [], ◌∷◌, ◌==◌, nat_eq, string_eq,
  if◌then◌else◌, decimal,
}
use x402_conformance.Prelude.Int.{ℤ, pos, negsuc}
use x402_conformance.Json.{Json, get, set_field}
use x402_conformance.Checks.Base.{Status, Ran}
use x402_conformance.Checks.Negative.{assert_rejected}
use x402_conformance.Payload.{decimal_int}
use x402_conformance.Checks.Negative.Probes.{
  ActiveContext, Attempt, skipped, crashed, attack, attack_or_crash, judge, with_key, build_payload,
  required, other_asset, eoa_asset,
}

module _ (ctx : ActiveContext) where
  -- `ctx.requirements.get("asset", "").lower() == asset.lower()`; no text has no `lower`
  abbrev pub uses_asset : Option Json → String → Option Bool
  uses_asset none asset = some (ctx.lib.lower "" == ctx.lib.lower asset)
  uses_asset (some (Json.str s)) asset = some (ctx.lib.lower s == ctx.lib.lower asset)
  uses_asset _ asset = none

  abbrev pub other_token : String → String → Attempt
  other_token asset detail = elim (uses_asset (get ctx.requirements "asset") asset) [
    | none ↦ crashed
    | some used ↦
        if used
        then skipped detail
        else attack_or_crash (build_payload ctx (with_key ctx.requirements "asset" asset))
  ]

  unfoldable pub neg_014 : Ran (Status × String)
  unfolding build_payload get set_field assert_rejected
  neg_014 =
      judge ctx (402 ∷ [])
        (other_token other_asset "endpoint already uses the substitute test asset")

  unfoldable pub neg_015 : Ran (Status × String)
  unfolding build_payload get set_field assert_rejected
  neg_015 =
      judge ctx (402 ∷ []) (other_token eoa_asset "endpoint already advertises the EOA test asset")

  unfoldable pub sec_010 : Ran (Status × String)
  unfolding build_payload set_field assert_rejected
  sec_010 =
      judge ctx (402 ∷ [])
        (elim (build_payload ctx (with_key ctx.requirements "network" "eip155:1")) [
          | none ↦ crashed
          | some payload ↦ attack (record payload { accepted = ctx.requirements })
        ])

  unfoldable pub neg_006 : Ran (Status × String)
  unfolding build_payload get set_field assert_rejected
  neg_006 = judge ctx (402 ∷ []) (elim (required ctx) [
    | none ↦ crashed
    | some z ↦
        attack_or_crash
          (build_payload ctx (with_key ctx.requirements "amount" (decimal_int (double z))))
  ])
    where
      double : ℤ → ℤ
      double (pos n) = pos (2 * n)
      double (negsuc n) = negsuc (2 * n + 1)

  unfoldable pub sec_011 : Ran (Status × String)
  unfolding build_payload set_field assert_rejected
  sec_011 = judge ctx (402 ∷ []) (
      attack_or_crash
        (build_payload ctx (with_key ctx.requirements "amount" (decimal (2 ^ 256 - 1)))))

  unfoldable pub neg_011 : Ran (Status × String)
  unfolding build_payload set_field assert_rejected
  neg_011 = judge ctx (402 ∷ []) (elim (build_payload ctx ctx.requirements) [
    | none ↦ crashed
    | some payload ↦
        attack (record payload { accepted = with_key ctx.requirements "network" "eip155:999999" })
  ])

  unfoldable pub neg_012 : Ran (Status × String)
  unfolding build_payload assert_rejected
  neg_012 = judge ctx (400 ∷ 402 ∷ []) (elim (build_payload ctx ctx.requirements) [
    | none ↦ crashed
    | some payload ↦ attack (record payload { x402_version = 99 })
  ])
