-- ===== src/Checks/Facilitator/Settle/Order.antt =====
-- Which payments `evaluate_settle` posts, and in which order.
use x402_conformance.Prelude.{
  ℕ, suc, String, refl, sym, ◌∙◌, Bool, true, false, ◌≡◌, not, Option, none, some, List, [], ◌∷◌,
  ◌++◌, if◌then◌else◌,
}
use mathlib.Core.List.{append-nil}
use x402_conformance.Json.{Json, Fields, get, set_field, is_text}
use x402_conformance.Models.{SettlementResponse, is_pending}
use x402_conformance.Payload.{PaymentPayload}
use x402_conformance.Probe.{Loaded}
use x402_conformance.Checks.Base.{Status, CheckResult, Ran, returned, raised}
use x402_conformance.Checks.Facilitator.{Client, Call, Request, post, return, ◌>>=◌, is_absent}
use x402_conformance.Checks.Facilitator.Verify.{Answer}
use x402_conformance.Checks.Facilitator.Settle.{
  Stage, proved, retried, again, not_again, settled_once, judge_r1, judge_first,
}
use x402_conformance.Checks.Facilitator.Settle.Flow.{
  results_of, finish_group, unless_decided, settle, retry_pending, second_settle, settle_group,
  after_first, evaluate_settle,
}
use x402_conformance.Checks.Facilitator.Settle.Sending.{
  Sends, Quiet, bind-Sends, Quiet-Sends, Quiet-if, continue-Adds, settle-Adds,
}

-- At most so many good payments, and behind them, where the flag is set, at most one cheap payment.
pub data Plan (good cheap : Request) : Bool → ℕ → List Request → Type 0 where
  stopped : {last : Bool} {n : ℕ} → Plan good cheap last n []
  underpaid : {n : ℕ} → Plan good cheap true n (cheap ∷ [])
  repeated :
      {last : Bool} {n : ℕ} {rest : List Request}
      → Plan good cheap last n rest
      → Plan good cheap last (suc n) (good ∷ rest)

module _ (good cheap : Request) where
  Plan-suc :
      {last : Bool} {n : ℕ} {p : List Request}
      → Plan good cheap last n p
      → Plan good cheap last (suc n) p
  Plan-suc stopped = stopped
  Plan-suc underpaid = underpaid
  Plan-suc (repeated p) = repeated (Plan-suc p)

  Plan-one :
      (last : Bool) (n : ℕ) (p q : List Request)
      → Plan good cheap false 1 p
      → Plan good cheap last n q
      → Plan good cheap last (suc n) (p ++ q)
  Plan-one last n p q stopped d = Plan-suc d
  Plan-one last n p q (repeated stopped) d = repeated d

  Plan-zero :
      (last : Bool) (n : ℕ) (p q : List Request)
      → Plan good cheap false 0 p
      → Plan good cheap last n q
      → Plan good cheap last n (p ++ q)
  Plan-zero last n p q stopped d = d

module _ (client : Client) (loads : String → Loaded) (explain : Json → String)
    (build : Fields → Ran PaymentPayload) (repr : Option String → String) (has_rpc : Bool)
    (verify_tx : String → Ran (Status × String)) (requirements : Fields)
    (good cheap : PaymentPayload) where
  abbrev good_post : Request
  good_post = post "/settle" good requirements

  abbrev cheap_post : Request
  cheap_post = post "/settle" cheap requirements

  settle_once :
      {A : Type 0} (f : Answer SettlementResponse → A)
      → Sends
          (Plan good_post cheap_post false 1)
          (settle client loads explain good requirements >>= (λ a. return (f a)))
  settle_once f s = (
    good_post ∷ [],
    continue-Adds (settle client loads explain good requirements s) (λ a. return (f a))
          (λ a s. refl)
        ∙ settle-Adds client loads explain good requirements s,
    repeated stopped,
  )

  return-Sends : {A : Type 0} (a : A) → Sends (Plan good_post cheap_post false 1) (return a)
  return-Sends a s = ([], sym (append-nil s.sent), stopped)

  proved-Quiet : (r : Ran (Status × String)) → Quiet (proved repr has_rpc verify_tx requirements r)
  proved-Quiet (returned (status, detail)) s = refl
  proved-Quiet (raised exc) s = refl

  judge_r1-Quiet :
      (r1_error : Option String) (first_pending r1 : Option SettlementResponse)
      → Quiet (judge_r1 repr has_rpc verify_tx requirements r1_error first_pending r1)
  judge_r1-Quiet r1_error first_pending none = λ s. refl
  judge_r1-Quiet r1_error first_pending (some r1) =
      Quiet-if (is_pending r1) _ _ (λ s. refl)
        (Quiet-if (not r1.success) _ _ (λ s. refl)
          (Quiet-if (not (is_text (get requirements "network") r1.network)) _ _ (λ s. refl)
            (Quiet-if (not has_rpc) _ _ (λ s. refl) (proved-Quiet (verify_tx r1.transaction)))))

  judge_first-Quiet :
      (r1_error : Option String) (st : Stage)
      → Quiet (judge_first repr has_rpc verify_tx requirements r1_error st)
  unfolding judge_first
  judge_first-Quiet r1_error st = judge_r1-Quiet r1_error st.first_pending st.r1

  Sends-if :
      {A : Type 0} (b : Bool) (m n : Call A) (P : List Request → Type 0)
      → Sends P m
      → Sends P n
      → Sends P (if b then m else n)
  Sends-if true m n P h k = h
  Sends-if false m n P h k = k

  retry_pending-Sends :
      (o : Option SettlementResponse)
      → Sends
          (Plan good_post cheap_post false 1)
          (retry_pending client loads explain build repr has_rpc verify_tx good requirements o)
  unfolding retry_pending
  retry_pending-Sends none = return-Sends (settled_once repr none)
  retry_pending-Sends (some r) =
      Sends-if (is_pending r) _ _ _ (settle_once (retried repr r))
        (return-Sends (settled_once repr (some r)))

  unless_decided-Sends :
      (first_pending : Option SettlementResponse) (decided : Option CheckResult)
      (r1 : Option SettlementResponse)
      → Sends (Plan good_post cheap_post false 1) (
          unless_decided client loads explain build repr has_rpc verify_tx good requirements
            first_pending decided r1)
  unless_decided-Sends first_pending (some result) r1 =
      return-Sends {A = CheckResult × List SettlementResponse} (result, [])
  unless_decided-Sends first_pending none none =
      return-Sends {A = CheckResult × List SettlementResponse} (not_again repr none, [])
  unless_decided-Sends first_pending none (some r1) =
      Sends-if r1.success _ _ _ (settle_once (again repr first_pending r1))
        (return-Sends {A = CheckResult × List SettlementResponse} (not_again repr (some r1), []))

  second_settle-Sends :
      (st : Stage)
      → Sends
          (Plan good_post cheap_post false 1)
          (second_settle client loads explain build repr has_rpc verify_tx good requirements st)
  unfolding second_settle
  second_settle-Sends st = unless_decided-Sends st.first_pending st.decided st.r1

  finish_group-Sends :
      (st : Stage) (first : CheckResult) (both : CheckResult × List SettlementResponse)
      → build (set_field requirements "amount" (Json.str "1")) ≡ returned cheap
      → Sends (Plan good_post cheap_post true 0) (
          finish_group client loads explain build repr has_rpc verify_tx requirements st first both)
  finish_group-Sends st first (second, more) h s =
      let rest : Answer SettlementResponse → Call (List CheckResult) = λ a.
        return
          (results_of client loads explain build repr has_rpc verify_tx st first second more a) in
      (
        cheap_post ∷ [],
        rw h (
            continue-Adds (settle client loads explain cheap requirements s) rest (λ a s. refl)
            ∙ settle-Adds client loads explain cheap requirements s),
        underpaid,
      )

  settle_group-Sends :
      (r1_error : Option String) (st : Stage)
      → build (set_field requirements "amount" (Json.str "1")) ≡ returned cheap
      → Sends (Plan good_post cheap_post true 1) (
          settle_group client loads explain build repr has_rpc verify_tx good requirements r1_error
            st)
  unfolding settle_group
  settle_group-Sends r1_error st h =
      let finish = finish_group client loads explain build repr has_rpc verify_tx requirements st in
      let second =
        second_settle client loads explain build repr has_rpc verify_tx good requirements st in
      let first = judge_first repr has_rpc verify_tx requirements r1_error st in
      bind-Sends (Plan good_post cheap_post false 0) (Plan good_post cheap_post true 1)
        (Plan good_post cheap_post true 1) (Plan-zero good_post cheap_post true 1) stopped first
        (λ r. second >>= finish r)
        (Quiet-Sends (Plan good_post cheap_post false 0) first stopped
          (judge_first-Quiet r1_error st))
        (λ r.
          bind-Sends (Plan good_post cheap_post false 1) (Plan good_post cheap_post true 0)
            (Plan good_post cheap_post true 1) (Plan-one good_post cheap_post true 0) stopped second
            (finish r) (second_settle-Sends st) (λ both. finish_group-Sends st r both h))

  after_first-Sends :
      (a : Answer SettlementResponse)
      → build (set_field requirements "amount" (Json.str "1")) ≡ returned cheap
      → Sends
          (Plan good_post cheap_post true 2)
          (after_first client loads explain build repr has_rpc verify_tx good requirements a)
  after_first-Sends a h =
      let retry =
        retry_pending client loads explain build repr has_rpc verify_tx good requirements
          a.response in
      let group =
        settle_group client loads explain build repr has_rpc verify_tx good requirements a.error in
      Sends-if (is_absent a.status) _ (retry >>= group) (Plan good_post cheap_post true 2)
        (λ s. ([], sym (append-nil s.sent), stopped))
        (bind-Sends (Plan good_post cheap_post false 1) (Plan good_post cheap_post true 1)
          (Plan good_post cheap_post true 2) (Plan-one good_post cheap_post true 1) stopped retry
          group (retry_pending-Sends a.response) (λ st. settle_group-Sends a.error st h))

  -- Where the two payments can be built, `evaluate_settle` posts the payment that meets the
  -- requirements at most three times, and then the underpaying one at most once, and nothing else,
  -- whatever the facilitator answers and however the run ends.
  pub evaluate_settle-Sends :
      build requirements ≡ returned good
      → build (set_field requirements "amount" (Json.str "1")) ≡ returned cheap
      → Sends (Plan good_post cheap_post true 3) (
          evaluate_settle client loads explain build repr has_rpc verify_tx true
            (some requirements))
  unfolding evaluate_settle
  evaluate_settle-Sends g h = rw g (
      bind-Sends (Plan good_post cheap_post false 1) (Plan good_post cheap_post true 2)
        (Plan good_post cheap_post true 3) (Plan-one good_post cheap_post true 2) stopped
        (settle client loads explain good requirements)
        (after_first client loads explain build repr has_rpc verify_tx good requirements)
        (λ s.
          (good_post ∷ [], settle-Adds client loads explain good requirements s, repeated stopped))
        (λ a. after_first-Sends a h))
