-- ===== src/Checks/Facilitator/Settle/Chain.antt =====
-- FA-SET-001 with the proof of checks/payment.py on the chain, which `evaluate_settle` calls.
use x402_conformance.Prelude.{
  Present, present_iff, missing_iff, String, refl, ◌≡◌, ◌↔◌, Bool, true, false, not, ◌&&◌, Option,
  none, some, arith, string_eq, if◌then◌else◌,
}
use x402_conformance.Prelude.Int.{ℤ}
use x402_conformance.Json.{Json, Fields, get, is_text}
use x402_conformance.Models.{SettlementResponse, is_pending, is_evm_tx_hash}
use x402_conformance.Payload.{Library, str_of, int_value}
use x402_conformance.Checks.Base.{
  Status, pass, fail, skip, ReasonCode, CheckResult, Ran, returned, raised,
}
use x402_conformance.Checks.Facilitator.{FaState, Call, Outcome, done, http_error, crashed, return}
use x402_conformance.Checks.Facilitator.Settle.{
  Stage, set_001, mk, mk_coded, proved, judge_r1, judge_first,
}
use x402_conformance.Checks.Payment.Transfer.{Lookup, verify_tx_onchain}
use x402_conformance.Checks.Payment.Transfer.Proof.{Proves, verify_tx_onchain_iff}

abbrev Passed : Ran (Status × String) → Type 0
Passed (returned (status, detail)) = status ≡ pass
Passed (raised text) = ⊥

-- `exc` is the `repr` of the exception for a requirement that is missing or is no number.
module _ (lib : Library) (exc : String) (repr : String → String) (look_up : String → Lookup) where
  abbrev number_of : Option Json → Option ℤ
  number_of none = none
  number_of (some j) = int_value lib j

  abbrev verify_parts : Option Json → Option Json → Option ℤ → String → Ran (Status × String)
  verify_parts (some asset) (some pay_to) (some amount) tx = returned (
      verify_tx_onchain lib.lower (str_of lib asset) lib.address (str_of lib pay_to) amount
        lib.unicode repr look_up tx)
  verify_parts _ _ _ tx = raised exc

  -- `_verify_tx_onchain` on the parts of the requirements
  unfoldable pub verify_settled : Fields → String → Ran (Status × String)
  unfolding verify_tx_onchain get
  verify_settled requirements tx =
      verify_parts (get requirements "asset") (get requirements "payTo")
        (number_of (get requirements "amount")) tx

  -- The transaction is proven to pay what the requirements ask for.
  abbrev ProvenBy : Option Json → Option Json → Option ℤ → String → Type 0
  ProvenBy (some asset) (some pay_to) (some amount) tx =
      (is_evm_tx_hash tx ≡ true)
      × Proves lib.lower (str_of lib asset) lib.address (str_of lib pay_to) amount lib.unicode repr
          tx (look_up tx)
  ProvenBy _ _ _ tx = ⊥

  abbrev pub Proven : Fields → String → Type 0
  Proven requirements tx =
      ProvenBy (get requirements "asset") (get requirements "payTo")
        (number_of (get requirements "amount")) tx

  parts_on :
      (asset pay_to : Option Json) (amount : Option ℤ) (tx : String)
      → Passed (verify_parts asset pay_to amount tx) ↔ ProvenBy asset pay_to amount tx
  parts_on none pay_to amount tx = ((λ h. h), λ h. h)
  parts_on (some asset) none amount tx = ((λ h. h), λ h. h)
  parts_on (some asset) (some pay_to) none tx = ((λ h. h), λ h. h)
  parts_on (some asset) (some pay_to) (some amount) tx =
      verify_tx_onchain_iff lib.lower (str_of lib asset) lib.address (str_of lib pay_to) amount
        lib.unicode repr look_up tx

map_present :
    {P Q : SettlementResponse → Type 0} {X : Type 0} (o : Option SettlementResponse)
    → ((r : SettlementResponse) → P r ↔ Q r)
    → X ↔ Present o P
    → X ↔ Present o Q
map_present o h (to, from) =
    (λ x. let (r, e, p) = to x in (r, e, (h r).0 p), λ (r, e, q). from (r, e, (h r).1 q))

-- The status of a result that was returned.
abbrev pub result_status : Outcome CheckResult → Option Status
result_status (done r) = some r.status
result_status (http_error e) = none
result_status (crashed e) = none

module _ (show : Option String → String) (requirements : Fields) (s : FaState)
    (verify_tx : String → Ran (Status × String)) where
  proved_on :
      (r : Ran (Status × String))
      → (result_status (proved show true verify_tx requirements r s).0 ≡ some pass) ↔ Passed r
  proved_on (returned (status, detail)) = ground arith
  proved_on (raised text) = (λ h. cc, λ h. elim h [ ])

  all_tests :
      {P : Type 0} (success pending network : Bool) (m : Call CheckResult)
      (detail text other : String) (code : Option ReasonCode)
      → ((result_status (m s).0 ≡ some pass) ↔ P)
      → (result_status
            ((if not success && pending
                then return (mk_coded set_001 skip detail code)
                else if not success
                then return (mk set_001 fail text)
                else if not network
                then return (mk set_001 fail other)
                else m)
              s).0
          ≡ some pass)
        ↔ ((success ≡ true) × (network ≡ true) × P)
  all_tests true pending true m detail text other code (to, from) =
      (λ h. (refl, refl, to h), λ (e, k, p). from p)
  all_tests true pending false m detail text other code h = ground arith
  all_tests false true network m detail text other code h = ground arith
  all_tests false false network m detail text other code h = ground arith

  r1_on :
      (r1_error : Option String) (first_pending o : Option SettlementResponse)
      → (result_status (judge_r1 show true verify_tx requirements r1_error first_pending o s).0
          ≡ some pass)
        ↔ Present o (λ r.
          (r.success ≡ true)
          × (is_text (get requirements "network") r.network ≡ true)
          × Passed (verify_tx r.transaction))
  unfolding is_pending
  r1_on r1_error first_pending none = missing_iff _ _ (λ h. ground arith)
  r1_on r1_error first_pending (some r) = present_iff r _ _ (
      all_tests r.success _ (is_text (get requirements "network") r.network) _ _ _ _ _
        (proved_on (verify_tx r.transaction)))

module _ (lib : Library) (exc : String) (repr : String → String) (look_up : String → Lookup)
    (show : Option String → String) (requirements : Fields) (s : FaState) where
  -- With a chain to ask, FA-SET-001 passes exactly if the answer that counts is a success on the
  -- network of the requirements, and the chain proves that its transaction moves the required amount
  -- of the required asset from the signer to the required recipient.
  pub judge_first-Proven_iff :
      (r1_error : Option String) (st : Stage)
      → (result_status
            (judge_first show true
              (verify_settled lib exc repr look_up requirements)
              requirements
              r1_error
              st
              s).0
          ≡ some pass)
        ↔ Present st.r1 (λ r.
          (r.success ≡ true)
          × (is_text (get requirements "network") r.network ≡ true)
          × Proven lib exc repr look_up requirements r.transaction)
  unfolding judge_first verify_settled
  judge_first-Proven_iff r1_error st =
      let chain = λ (r : SettlementResponse).
        parts_on lib exc repr look_up (get requirements "asset") (get requirements "payTo")
          (number_of lib exc repr look_up (get requirements "amount")) r.transaction in
      map_present st.r1
        (λ r. (λ (h, k, p). (h, k, (chain r).0 p), λ (h, k, p). (h, k, (chain r).1 p)))
        (r1_on show requirements s (verify_settled lib exc repr look_up requirements) r1_error
          st.first_pending st.r1)
