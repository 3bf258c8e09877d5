-- ===== src/Checks/Payment/Flow/Passes.antt =====
-- When the verdicts of the payment flow pass.
use x402_conformance.Prelude.{
  Present, present_iff, missing_iff, String, refl, ◌≡◌, ◌≢◌, ◌↔◌, ◌≤◌, true, false, Option, none,
  some, List, keep, length, arith, string_eq,
}
use x402_conformance.Models.{SettlementResponse, is_pending}
use x402_conformance.Active.Response.{ActiveResponse, served_resource, settled_ok}
use x402_conformance.Checks.Base.{pass}
use x402_conformance.Checks.Payment.{PaymentContext}
use x402_conformance.Checks.Payment.Verdicts.{
  pending_of, judge_delivery, judge_settlement, judge_stated, judge_answer,
}
use x402_conformance.Checks.Payment.Flow.{accepts, judge_replay, judge_race}

-- A success that names a transaction.
abbrev pub IsSettled : SettlementResponse → Type 0
IsSettled s = (s.success ≡ true) × (s.transaction ≢ "") × (s.transaction ≢ "0x")

-- There is no text, or an empty one.
abbrev pub IsClean : Option String → Type 0
IsClean none = Unit
IsClean (some text) = text ≡ ""

module _ (ctx : PaymentContext) where
  delivery_on :
      (resp : ActiveResponse) (o : Option SettlementResponse)
      → pending_of resp.settlement ≡ o
      → ((judge_delivery ctx resp).status ≡ pass) ↔ (served_resource resp ≡ true)
  unfolding judge_delivery
  delivery_on resp none h = rw (h, judge_delivery) (ground arith)
  delivery_on resp (some s) h = rw (h, judge_delivery) (ground arith)

  answer_on :
      (o : Option SettlementResponse) → ((judge_answer ctx o).status ≡ pass) ↔ Present o IsSettled
  unfolding is_pending
  answer_on none = missing_iff _ _ (λ h. ground arith)
  answer_on (some s) =
      present_iff s _ _
        (ground (arith, string_eq.beq_iff s.transaction "", string_eq.beq_iff s.transaction "0x"))

  stated_on :
      (e : Option String) (o : Option SettlementResponse)
      → ((judge_stated ctx e o).status ≡ pass) ↔ (IsClean e × Present o IsSettled)
  stated_on none o = ground (arith, answer_on o)
  stated_on (some text) o = ground (arith, answer_on o, string_eq.beq_iff text "")

  replay_on :
      (r : ActiveResponse)
      → ((judge_replay r).status ≡ pass) ↔ ((served_resource r ≡ false) × (settled_ok r ≡ false))
  unfolding judge_replay
  replay_on r = ground arith

  race_on :
      (rs : List ActiveResponse) → ((judge_race rs).status ≡ pass) ↔ (length (keep accepts rs) ≤ 1)
  unfolding judge_race
  race_on rs = ground arith

  -- RS-PAY-001 passes exactly if the resource is served. RS-PAY-002 passes exactly if the settlement
  -- header is there without a fault and tells of a success with a transaction that is neither empty
  -- nor `0x`. The replay passes exactly if it is neither served nor settled, and the race exactly if
  -- at most one of its payments is.
  pub payment_verdicts_iff :
      (resp replay : ActiveResponse) (race : List ActiveResponse)
      → (((judge_delivery ctx resp).status ≡ pass) ↔ (served_resource resp ≡ true))
        × (((judge_settlement ctx resp).status ≡ pass)
            ↔ (IsClean resp.settlement_error × Present resp.settlement IsSettled))
        × (((judge_replay replay).status ≡ pass)
            ↔ ((served_resource replay ≡ false) × (settled_ok replay ≡ false)))
        × (((judge_race race).status ≡ pass) ↔ (length (keep accepts race) ≤ 1))
  unfolding judge_settlement
  payment_verdicts_iff resp replay race = (
    delivery_on resp (pending_of resp.settlement) refl,
    stated_on resp.settlement_error resp.settlement,
    replay_on replay,
    race_on race,
  )
