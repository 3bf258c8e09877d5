-- ===== src/Checks/Payment/Flow/Sent.antt =====
-- What a payment run sends, and what it reports.
use x402_conformance.Prelude.{
  ℕ, String, refl, subst, ◌≡◌, ◌≢◌, ◌⊎◌, inl, inr, ◌≤◌, ◌<◌, Bool, true, false, Option, none, some,
  List, [], ◌∷◌, arith, string_eq, if◌then◌else◌,
}
use x402_conformance.Prelude.Int.{ℤ, pos, negsuc, is_nonpositive}
use x402_conformance.Models.{SettlementResponse}
use x402_conformance.Payload.{PaymentPayload}
use x402_conformance.Checks.Base.{Status, CheckResult, Ran, returned, raised}
use x402_conformance.Checks.Payment.{
  PaymentContext, Chain, text_of, needed, preflight, read_token_balance, judge_balance, is_below,
}
use x402_conformance.Checks.Payment.Verdicts.{succeeded, judge_cacheability}
use x402_conformance.Checks.Payment.Flow.{
  first_results, build_at, pay_race, race_on, replay_and_race, on_cacheability, pay, unless_blocked,
  evaluate_payment,
}

module _ (ctx : PaymentContext) where
  -- The chain, if there is one, says that the signer has the amount, which is positive.
  abbrev pub Funded : Option Chain → Type 0
  Funded none = Unit
  Funded (some chain) =
      (balance : ℕ) × (amount : ℕ) × (read_token_balance ctx chain (text_of ctx "asset")
          ctx.lib.address
        ≡ some balance)
      × (needed ctx ≡ pos amount)
      × (0 < amount)
      × (amount ≤ balance)

  -- The payment alone or, if it was settled, once more, and behind it five times the payment that is
  -- built with the time and the nonce of the race.
  abbrev pub Course : PaymentPayload → List PaymentPayload → Type 0
  Course payload sent =
      (sent ≡ payload ∷ [])
      ⊎ ((succeeded (ctx.send [] payload).settlement ≢ none)
          × ((sent ≡ payload ∷ payload ∷ [])
              ⊎ ((race : PaymentPayload) × (build_at ctx ctx.race_now ctx.race_nonce ≡ some race)
                  × (sent ≡ payload ∷ payload ∷ race ∷ race ∷ race ∷ race ∷ race ∷ []))))

  race_on-Course :
      (payload : PaymentPayload) (results : List CheckResult) (o : Option PaymentPayload)
      → ((race_on ctx results (payload ∷ payload ∷ []) o).1 ≡ payload ∷ payload ∷ [])
        ⊎ ((race : PaymentPayload) × (o ≡ some race)
            × ((race_on ctx results (payload ∷ payload ∷ []) o).1
                ≡ payload ∷ payload ∷ race ∷ race ∷ race ∷ race ∷ race ∷ []))
  unfolding pay_race
  race_on-Course payload results none = inl refl
  race_on-Course payload results (some race) = inr (race, refl, refl)

  replay_and_race-Course :
      (payload : PaymentPayload) (results : List CheckResult) (o : Option SettlementResponse)
      → succeeded (ctx.send [] payload).settlement ≡ o
      → Course payload (replay_and_race ctx results payload o).1
  replay_and_race-Course payload results none h = inl refl
  replay_and_race-Course payload results (some s) h =
      inr (λ e. cc, race_on-Course payload _ (build_at ctx ctx.race_now ctx.race_nonce))

  on_cacheability-Course :
      (chain : Option Chain) (payload : PaymentPayload) (r : Ran CheckResult)
      → Course payload (on_cacheability ctx chain payload (ctx.send [] payload) r).1
  on_cacheability-Course chain payload (raised exc) = inl refl
  on_cacheability-Course chain payload (returned result) =
      replay_and_race-Course payload (first_results ctx chain (ctx.send [] payload) result)
        (succeeded (ctx.send [] payload).settlement) refl

  pay_lem :
      (chain : Option Chain) (o : Option PaymentPayload)
      → ((pay ctx chain o).1 ≡ [])
        ⊎ ((payload : PaymentPayload) × (o ≡ some payload) × Course payload (pay ctx chain o).1)
  pay_lem chain none = inl refl
  pay_lem chain (some payload) = inr (
    payload,
    refl,
    on_cacheability-Course chain payload (judge_cacheability ctx (ctx.send [] payload)),
  )

  not_below :
      (balance : ℕ) (z : ℤ) (x : Status × String)
      → (if is_below ctx balance z then some x else none) ≡ none
      → is_below ctx balance z ≡ false
  not_below balance z x h = ground arith

  cover_on :
      (chain : Chain) (z : ℤ) (o : Option ℕ)
      → needed ctx ≡ z
      → read_token_balance ctx chain (text_of ctx "asset") ctx.lib.address ≡ o
      → is_nonpositive z ≡ false
      → judge_balance ctx o ≡ none
      → Funded (some chain)
  cover_on chain z none h k p q = ground arith
  cover_on chain (negsuc n) (some balance) h k p q = ground arith
  cover_on chain (pos n) (some balance) h k p q =
      let below =
        subst (λ z. is_below ctx balance z ≡ false) h (not_below balance (needed ctx) _ q) in
      (balance, n, k, h, ground arith, ground arith)

  unblocked :
      (b : Bool) (x : Status × String) (o : Option (Status × String))
      → (if b then some x else o) ≡ none
      → (b ≡ false) × (o ≡ none)
  unblocked true x o h = ground arith
  unblocked false x o h = (refl, h)

  preflight-Funded : (chain : Option Chain) → preflight ctx chain ≡ none → Funded chain
  unfolding preflight
  preflight-Funded none h = tt
  preflight-Funded (some chain) h =
      let balance = read_token_balance ctx chain (text_of ctx "asset") ctx.lib.address in
      let (positive, unrefused) =
        unblocked (is_nonpositive (needed ctx)) _ (judge_balance ctx balance) h in
      cover_on chain (needed ctx) balance refl refl positive unrefused

  unless_blocked_lem :
      (chain : Option Chain) (o : Option (Status × String))
      → preflight ctx chain ≡ o
      → ((unless_blocked ctx chain o).1 ≡ [])
        ⊎ (Funded chain
            × ((payload : PaymentPayload) × (build_at ctx ctx.now ctx.nonce ≡ some payload)
                × Course payload (unless_blocked ctx chain o).1))
  unless_blocked_lem chain (some (status, detail)) h = inl refl
  unless_blocked_lem chain none h = elim (pay_lem chain (build_at ctx ctx.now ctx.nonce)) [
    | inl e ↦ inl e
    | inr k ↦ inr (preflight-Funded chain h, k)
  ]

  -- A payment run sends nothing, or it sends the payment first. With a chain to ask, it does so only if
  -- the signer's balance on the chain covers the amount, and the amount is positive; without a chain it
  -- asks for no balance. It sends more only if the first answer holds a successful settlement: the
  -- payment once again, and then, if it can be built, five times a payment that is built anew, at the
  -- time and with the nonce of the race.
  pub evaluate_payment_lem :
      (chain : Option Chain)
      → ((evaluate_payment (some ctx) chain).1 ≡ [])
        ⊎ (Funded chain
            × ((payload : PaymentPayload) × (build_at ctx ctx.now ctx.nonce ≡ some payload)
                × Course payload (evaluate_payment (some ctx) chain).1))
  unfolding evaluate_payment
  evaluate_payment_lem chain = unless_blocked_lem chain (preflight ctx chain) refl
