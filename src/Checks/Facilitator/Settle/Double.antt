-- ===== src/Checks/Facilitator/Settle/Double.antt =====
-- When the verdicts on the answers of /settle pass.
use x402_conformance.Prelude.{
  Present, present_iff, missing_iff, String, refl, true, false, ◌≡◌, ◌↔◌, ◌⊎◌, any, keep, Option,
  none, some, List, [], ◌∷◌, arith, Any, ◌==◌, string_eq,
}
use x402_conformance.Models.{SettlementResponse, is_pending}
use x402_conformance.Checks.Base.{pass, fail}
use x402_conformance.Checks.Facilitator.Verify.{Answer}
use x402_conformance.Checks.Facilitator.Settle.{
  judge_again, judge_cheap, judge_pending, names_broadcast,
}

-- The payment is rejected, or it is settled by the transaction that was pending before.
abbrev pub SettledOnce :
    Option SettlementResponse → SettlementResponse → SettlementResponse → Type 0
SettledOnce first_pending r1 r3 =
    (r3.success ≡ false)
    ⊎ ((names_broadcast first_pending ≡ true) × (r3.transaction ≡ r1.transaction))

-- Failed, and without a broadcast.
abbrev pub Rejected : SettlementResponse → Type 0
Rejected r = (r.success ≡ false) × (r.transaction ≡ "")

module _ (repr : Option String → String) where
  again_on :
      (first_pending : Option SettlementResponse) (r1 : SettlementResponse)
      (a : Answer SettlementResponse) (o : Option SettlementResponse)
      → a.response ≡ o
      → ((judge_again repr first_pending r1 a).status ≡ pass)
        ↔ Present o (SettledOnce first_pending r1)
  unfolding judge_again
  again_on first_pending r1 a none h = rw (h, judge_again) (missing_iff _ _ (λ p. ground arith))
  again_on first_pending r1 a (some r3) h =
      rw (h, judge_again)
        (present_iff r3 _ _ (ground (arith, string_eq.beq_iff r3.transaction r1.transaction)))

  cheap_on :
      (a : Answer SettlementResponse) (o : Option SettlementResponse)
      → a.response ≡ o
      → ((judge_cheap repr a).status ≡ pass) ↔ Present o Rejected
  unfolding judge_cheap
  cheap_on a none h = rw (h, judge_cheap) (missing_iff _ _ (λ p. ground arith))
  cheap_on a (some r) h =
      rw (h, judge_cheap) (present_iff r _ _ (ground (arith, string_eq.beq_iff r.transaction "")))

  empty_broadcasts :
      (rs : List SettlementResponse)
      → (any (λ a. a.transaction == "") (keep is_pending rs) ≡ true)
        ↔ Any (λ r. (is_pending r ≡ true) × (r.transaction ≡ "")) rs
  empty_broadcasts [] = ground arith
  empty_broadcasts (r ∷ rs) =
      ground (arith, empty_broadcasts rs, string_eq.beq_iff r.transaction "")

  pending_on :
      (ps : List SettlementResponse) (answers : List SettlementResponse)
      → keep is_pending answers ≡ ps
      → ((judge_pending answers).status ≡ fail) ↔ (any (λ a. a.transaction == "") ps ≡ true)
  unfolding judge_pending
  pending_on [] answers h = rw (h, judge_pending) (ground arith)
  pending_on (p ∷ ps) answers h = rw (h, judge_pending) (ground arith)

  -- FA-SET-003 passes a second settlement exactly if it is answered, and the answer is a failure or
  -- names the transaction of the first, where the first answer was pending and named a broadcast.
  -- FA-SET-002 passes exactly if the underpaying payment is answered by a failure without a
  -- transaction. FA-SET-004 fails exactly if some answer is pending without a transaction.
  pub settle_verdicts_iff :
      (first_pending : Option SettlementResponse) (r1 : SettlementResponse)
      (again cheap : Answer SettlementResponse) (answers : List SettlementResponse)
      → (((judge_again repr first_pending r1 again).status ≡ pass)
          ↔ Present again.response (SettledOnce first_pending r1))
        × (((judge_cheap repr cheap).status ≡ pass) ↔ Present cheap.response Rejected)
        × (((judge_pending answers).status ≡ fail)
            ↔ Any (λ r. (is_pending r ≡ true) × (r.transaction ≡ "")) answers)
  settle_verdicts_iff first_pending r1 again cheap answers = (
    again_on first_pending r1 again again.response refl,
    cheap_on cheap cheap.response refl,
    ground (arith, pending_on (keep is_pending answers) answers refl, empty_broadcasts answers),
  )
