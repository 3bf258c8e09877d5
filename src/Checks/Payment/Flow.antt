-- ===== src/Checks/Payment/Flow.antt =====
-- `evaluate_payment`: the preflight, the payment, its replay and its race. The five payments of the
-- race are one and the same, so the order in which they arrive permutes the answers only, and they
-- are counted.
pub mod Sent
pub mod Passes
use x402_conformance.Prelude.{
  ℕ, zero, suc, String, Bool, true, false, Option, none, some, List, [], ◌∷◌, ◌++◌, keep, length,
  ◌==◌, string_eq, leb, ◌&&◌, ◌||◌, not, is_none, if◌then◌else◌, fstring, decimal, join,
}
use x402_conformance.Json.{Json, Fields, get, is_text}
use x402_conformance.Models.{SettlementResponse}
use x402_conformance.Active.Response.{ActiveResponse, served_resource, settled_ok}
use x402_conformance.Payload.{PaymentPayload, str_of, build_exact_eip3009_payload}
use x402_conformance.Checks.Base.{Status, pass, fail, skip, CheckResult, Ran, returned, raised}
use x402_conformance.Checks.Payment.{
  PayCheck, pay_001, pay_002, pay_003, pay_004, sec_001, sec_002, graded, ungraded, PaymentContext,
  Chain, text_of, needed, preflight,
}
use x402_conformance.Checks.Payment.Transfer.{verify_tx_onchain}
use x402_conformance.Checks.Payment.Verdicts.{
  succeeded, judge_delivery, judge_cacheability, judge_leak, judge_settlement,
}

-- `r.served_resource or r.settled_ok`
abbrev pub accepts : ActiveResponse → Bool
accepts r = served_resource r || settled_ok r

-- RS-SEC-001, for a settled payment
unfoldable pub judge_replay : ActiveResponse → CheckResult
unfolding served_resource settled_ok
judge_replay r =
    if accepts r
    then graded sec_001 fail (
        fstring (
          "replay of a settled payment was accepted (status "
          ∷ decimal r.status_code
          ∷ ") — nonce reuse not prevented"
          ∷ []))
    else graded sec_001 pass
        (fstring ("replay correctly rejected (status " ∷ decimal r.status_code ∷ ")" ∷ []))

-- RS-SEC-002, for a settled payment
unfoldable pub judge_race : List ActiveResponse → CheckResult
unfolding served_resource settled_ok
judge_race responses =
    let settled = length (keep accepts responses) in
    if leb 2 settled
    then graded sec_002 fail (
        fstring (
          decimal settled
          ∷ "/5 concurrent settles of one payment succeeded — nonce reuse under concurrency (double-settle)"
          ∷ []))
    else graded sec_002 pass
        (fstring (decimal settled ∷ "/5 concurrent settles succeeded (no double-settle)" ∷ []))

module _ (ctx : PaymentContext) where
  abbrev text_or_none : String → String
  text_or_none key = elim (get ctx.requirements key) [ none ↦ "None" | some j ↦ str_of ctx.lib j ]

  abbrev problem : Bool → String → List String
  problem b text = if b then text ∷ [] else []

  abbrev payer_problems : Option String → List String
  payer_problems none = "settlement response does not identify payer" ∷ []
  payer_problems (some payer) =
      if payer == ""
      then "settlement response does not identify payer" ∷ []
      else problem (not (ctx.lib.lower payer == ctx.lib.lower ctx.lib.address))
          (fstring ("payer " ∷ ctx.repr payer ∷ " != signer " ∷ ctx.repr ctx.lib.address ∷ []))

  abbrev amount_problems : Option String → List String
  amount_problems none = []
  amount_problems (some amount) = problem (not (amount == text_or_none "amount")) (
      fstring
        ("amount " ∷ ctx.repr amount ∷ " != " ∷ ctx.repr_of (get ctx.requirements "amount") ∷ []))

  abbrev network_problems : String → List String
  network_problems network = problem (not (is_text (get ctx.requirements "network") network)) (
      fstring (
        "network " ∷ ctx.repr network ∷ " != " ∷ ctx.repr_of (get ctx.requirements "network") ∷ []))

  abbrev problems_or_pass : List String → CheckResult
  problems_or_pass [] = graded pay_003 pass ""
  problems_or_pass (p ∷ ps) = graded pay_003 fail (join "; " (p ∷ ps))

  -- RS-PAY-003
  unfoldable pub judge_consistency : Option SettlementResponse → CheckResult
  unfolding get
  judge_consistency none = graded pay_003 skip "no successful settlement to inspect"
  judge_consistency (some s) =
      problems_or_pass
        (network_problems s.network ++ payer_problems s.payer ++ amount_problems s.amount)

  abbrev no_tx : CheckResult
  no_tx = graded pay_004 skip "no settlement tx to verify"

  abbrev proof_on : String → Option Chain → CheckResult
  proof_on tx none = graded pay_004 skip "no --rpc-url given; pass one to verify the tx on-chain"
  proof_on tx (some chain) =
      let (status, detail) =
        verify_tx_onchain ctx.lib.lower (text_of ctx "asset") ctx.lib.address (text_of ctx "payTo")
          (needed ctx) ctx.lib.unicode ctx.repr chain.look_up tx in
      graded pay_004 status detail

  -- RS-PAY-004
  unfoldable pub judge_proof : Option Chain → Option SettlementResponse → CheckResult
  unfolding verify_tx_onchain get
  judge_proof chain none = no_tx
  judge_proof chain (some s) =
      if s.transaction == "" || s.transaction == "0x" then no_tx else proof_on s.transaction chain

  unfoldable pub pay_race :
      PaymentPayload → ℕ → List PaymentPayload → List ActiveResponse × List PaymentPayload
  pay_race payload zero sent = ([], sent)
  pay_race payload (suc n) sent =
      let (responses, all) = pay_race payload n (sent ++ payload ∷ []) in
      (ctx.send sent payload ∷ responses, all)

  abbrev raced :
      List CheckResult
      → List ActiveResponse × List PaymentPayload
      → Ran (List CheckResult) × List PaymentPayload
  raced results (responses, sent) = (returned (results ++ judge_race responses ∷ []), sent)

  -- The race, with a payment of its own.
  abbrev pub race_on :
      List CheckResult
      → List PaymentPayload
      → Option PaymentPayload
      → Ran (List CheckResult) × List PaymentPayload
  race_on results sent none = (raised ctx.exc, sent)
  race_on results sent (some payload) = raced results (pay_race payload 5 sent)

  abbrev pub build_at : ℕ → String → Option PaymentPayload
  build_at now nonce =
      build_exact_eip3009_payload ctx.lib ctx.requirements (some ctx.resource_url) ctx.extensions
        none none now nonce

  abbrev pub replay_and_race :
      List CheckResult
      → PaymentPayload
      → Option SettlementResponse
      → Ran (List CheckResult) × List PaymentPayload
  replay_and_race results payload none = (
    returned (
        results
        ++ graded sec_001 skip "no successful settlement to replay"
          ∷ graded sec_002 skip "no successful settlement to race"
          ∷ []),
    payload ∷ [],
  )
  replay_and_race results payload (some s) =
      race_on (results ++ judge_replay (ctx.send (payload ∷ []) payload) ∷ [])
        (payload ∷ payload ∷ []) (build_at ctx.race_now ctx.race_nonce)

  -- The verdicts on the first answer.
  abbrev pub first_results : Option Chain → ActiveResponse → CheckResult → List CheckResult
  first_results chain resp cacheability =
      judge_delivery ctx resp
      ∷ cacheability
      ∷ judge_leak ctx resp
      ∷ judge_settlement ctx resp
      ∷ judge_consistency (succeeded resp.settlement)
      ∷ judge_proof chain (succeeded resp.settlement)
      ∷ []

  abbrev pub on_cacheability :
      Option Chain
      → PaymentPayload
      → ActiveResponse
      → Ran CheckResult
      → Ran (List CheckResult) × List PaymentPayload
  on_cacheability chain payload resp (raised exc) = (raised exc, payload ∷ [])
  on_cacheability chain payload resp (returned cacheability) =
      replay_and_race (first_results chain resp cacheability) payload (succeeded resp.settlement)

  abbrev pub pay :
      Option Chain → Option PaymentPayload → Ran (List CheckResult) × List PaymentPayload
  pay chain none = (raised ctx.exc, [])
  pay chain (some payload) =
      let resp = ctx.send [] payload in
      on_cacheability chain payload resp (judge_cacheability ctx resp)

  abbrev pub unless_blocked :
      Option Chain → Option (Status × String) → Ran (List CheckResult) × List PaymentPayload
  unless_blocked chain (some (status, detail)) = (returned (ungraded status detail), [])
  unless_blocked chain none = pay chain (build_at ctx.now ctx.nonce)

-- The results, and what was sent.
unfoldable pub evaluate_payment :
    Option PaymentContext → Option Chain → Ran (List CheckResult) × List PaymentPayload
unfolding preflight judge_delivery judge_cacheability judge_leak judge_settlement judge_consistency
    judge_proof judge_replay judge_race pay_race build_exact_eip3009_payload
evaluate_payment none chain =
    (returned (ungraded skip "no exact/eip3009 requirement / signer to pay"), [])
evaluate_payment (some ctx) chain = unless_blocked ctx chain (preflight ctx chain)
