-- ===== src/Checks/Payment/Transfer/Proof.antt =====
-- What a proof of a settlement on the chain proves.
use x402_conformance.Prelude.{
  Present, present_iff, missing_iff, ℕ, String, refl, ap, subst, if◌then◌else◌, ◌≡◌, ◌↔◌, ◌&&◌, not,
  Bool, true, false, Option, none, some, some-inj, List, [], ◌∷◌, ◌++◌, keep, arith, ◌==◌,
  string_eq,
}
use x402_conformance.Prelude.Int.{ℤ, pos, is_nat}
use x402_conformance.Models.{is_evm_tx_hash}
use x402_conformance.Safety.Digits.{Unicode, int_base16}
use x402_conformance.Checks.Base.{Status, pass, fail, status_eq}
use x402_conformance.Checks.PaymentRequired.{fail_if}
use x402_conformance.Checks.Payment.Transfer.{
  fullmatch_address, problem, Value, hex, Log, Receipt, Lookup, no_web3, not_found, found,
  address_topic, is_transfer, judge_amount, judge_data, judge_topics, judge_logs,
  verify_transfer_logs, other_hash, judge_status, judge_lookup, verify_tx_onchain, with_block,
}

is_nat_iff : (z : ℤ) (n : ℕ) → (is_nat z n ≡ true) ↔ (z ≡ pos n)
is_nat_iff z n = ground arith

problems_iff :
    (b c d : Bool) (x y z text rest : String)
    → ((fail_if (problem (not b) x ++ problem (not c) y ++ problem (not d) z) text (pass, rest)).0
        ≡ pass)
      ↔ ((b ≡ true) × (c ≡ true) × (d ≡ true))
problems_iff true true true x y z text rest = ground arith
problems_iff true true false x y z text rest = ground arith
problems_iff true false d x y z text rest = ground arith
problems_iff false c d x y z text rest = ground arith

-- What a verdict comes to if a test precedes it.
refused_if :
    {P : Type 0} (b : Bool) (x : String) (r : Status × String)
    → ((r.0 ≡ pass) ↔ P)
    → ((if b then (fail, x) else r).0 ≡ pass) ↔ ((b ≡ false) × P)
refused_if true x r (to, from) = (λ h. cc, λ (e, k). cc)
refused_if false x r (to, from) = (λ h. (refl, to h), λ (e, k). from k)

refused_unless :
    {P : Type 0} (b : Bool) (x : String) (r : Status × String)
    → ((r.0 ≡ pass) ↔ P)
    → ((if not b then (fail, x) else r).0 ≡ pass) ↔ ((b ≡ true) × P)
refused_unless true x r (to, from) = (λ h. (refl, to h), λ (e, k). from k)
refused_unless false x r (to, from) = (λ h. cc, λ (e, k). cc)

module _ {Q P : Type 0} where
  all_three :
      (a b c : Bool)
      → (Q ↔ ((a && b && c ≡ true) × P))
      → Q ↔ ((a ≡ true) × (b ≡ true) × (c ≡ true) × P)
  all_three a b c h = ground (arith, h)

  is_one_of : (z : ℤ) → (Q ↔ ((is_nat z 1 ≡ true) × P)) → Q ↔ ((some z ≡ some (pos 1)) × P)
  is_one_of z (to, from) = (
    λ q. let (h, p) = to q in (ap some ((is_nat_iff z 1).0 h), p),
    λ (h, p). from ((is_nat_iff z 1).1 (some-inj h), p),
  )

same_names :
    {Q : Type 0} (s t u v : String) (z : ℤ) (n : ℕ)
    → (Q ↔ (((s == t) ≡ true) × ((u == v) ≡ true) × (is_nat z n ≡ true)))
    → Q ↔ ((s ≡ t) × (u ≡ v) × (z ≡ pos n))
same_names s t u v z n q =
    ground (arith, q, string_eq.beq_iff s t, string_eq.beq_iff u v, is_nat_iff z n)

module _ (lower : String → String) (asset payer pay_to : String) (amount : ℤ) where
  -- The parts of a Transfer event name the payer, the recipient and the amount.
  abbrev pub Names : Value → Value → ℕ → Type 0
  Names from to actual =
      (lower (hex from) ≡ address_topic lower payer)
      × (lower (hex to) ≡ address_topic lower pay_to)
      × (amount ≡ pos actual)

  amount_on :
      (from to : Value) (o : Option ℕ)
      → ((judge_amount lower asset payer pay_to amount from to o).0 ≡ pass)
        ↔ Present o (Names from to)
  amount_on from to none = missing_iff _ _ (λ h. ground arith)
  amount_on from to (some actual) = present_iff actual _ _ (
      same_names _ _ _ _ amount actual (
        problems_iff (lower (hex from) == address_topic lower payer)
          (lower (hex to) == address_topic lower pay_to) (is_nat amount actual) _ _ _ _ _))

  module _ (unicode : Unicode) (repr : String → String) where
    -- Behind its signature, the topics are two, and with the data they name the payment.
    abbrev pub NamesPayment : Log → List Value → Type 0
    NamesPayment log (t ∷ from ∷ to ∷ []) =
        Present log.log_data (λ v. Present (int_base16 unicode (hex v)) (Names from to))
    NamesPayment log _ = ⊥

    abbrev pub IsPayment : Log → Type 0
    IsPayment log = Present log.topics (NamesPayment log)

    -- The addresses are well formed, and there is exactly one Transfer of the asset, the payment.
    abbrev pub OnePayment : List Log → Type 0
    OnePayment logs =
        (fullmatch_address asset ≡ true)
        × (fullmatch_address payer ≡ true)
        × (fullmatch_address pay_to ≡ true)
        × ((log : Log) × (keep (is_transfer lower asset) logs ≡ log ∷ []) × IsPayment log)

    data_on :
        (log : Log) (from to : Value) (o : Option Value)
        → ((judge_data lower asset payer pay_to amount unicode repr log from to o).0 ≡ pass)
          ↔ Present o (λ v. Present (int_base16 unicode (hex v)) (Names from to))
    data_on log from to none = missing_iff _ _ (λ h. ground arith)
    data_on log from to (some v) =
        present_iff v _ _ (amount_on from to (int_base16 unicode (hex v)))

    topics_on :
        (log : Log) (o : Option (List Value))
        → ((judge_topics lower asset payer pay_to amount unicode repr log o).0 ≡ pass)
          ↔ Present o (NamesPayment log)
    topics_on log none = missing_iff _ _ (λ h. ground arith)
    topics_on log (some []) = present_iff _ _ _ (ground arith)
    topics_on log (some (t ∷ [])) = present_iff _ _ _ (ground arith)
    topics_on log (some (t ∷ u ∷ [])) = present_iff _ _ _ (ground arith)
    topics_on log (some (t ∷ from ∷ to ∷ [])) = present_iff _ _ _ (data_on log from to log.log_data)
    topics_on log (some (t ∷ u ∷ v ∷ w ∷ ts)) = present_iff _ _ _ (ground arith)

    first_eq : {x y : Log} → ◌≡◌ {A = List Log} (x ∷ []) (y ∷ []) → y ≡ x
    first_eq e = cc

    logs_on :
        (logs : List Log)
        → ((judge_logs lower asset payer pay_to amount unicode repr logs).0 ≡ pass)
          ↔ ((log : Log) × (logs ≡ log ∷ []) × IsPayment log)
    logs_on [] = (λ h. cc, λ (x, e, k). cc)
    logs_on (log ∷ []) = (
      λ h. (log, refl, (topics_on log log.topics).0 h),
      λ (x, e, k). (topics_on log log.topics).1 (subst IsPayment (first_eq e) k),
    )
    logs_on (log ∷ other ∷ logs) = (λ h. cc, λ (x, e, k). cc)

    transfer_on :
        (logs : List Log)
        → ((verify_transfer_logs lower asset payer pay_to amount unicode repr logs).0 ≡ pass)
          ↔ OnePayment logs
    unfolding verify_transfer_logs
    transfer_on logs = all_three _ _ _ (
        refused_unless
          (fullmatch_address asset && fullmatch_address payer && fullmatch_address pay_to) _
          (judge_logs lower asset payer pay_to amount unicode repr
            (keep (is_transfer lower asset) logs))
          (logs_on (keep (is_transfer lower asset) logs)))

    -- The look-up found a receipt of the transaction, of success, and with the payment.
    abbrev pub Proves : String → Lookup → Type 0
    Proves tx (found r) =
        (other_hash lower tx r.transaction_hash ≡ false)
        × ((r.status ≡ some (pos 1)) × OnePayment r.logs)
    Proves tx _ = ⊥

    block_on :
        (block : String) (logs : List Log) (r : Status × String)
        → ((r.0 ≡ pass) ↔ OnePayment logs)
        → ((with_block block r).0 ≡ pass) ↔ OnePayment logs
    block_on block logs (status, detail) h = ground (arith, h)

    status_on :
        (tx : String) (r : Receipt) (o : Option ℤ)
        → ((judge_status lower asset payer pay_to amount unicode repr tx r o).0 ≡ pass)
          ↔ ((o ≡ some (pos 1)) × OnePayment r.logs)
    status_on tx r none = (λ h. cc, λ (e, k). cc)
    status_on tx r (some z) = is_one_of z (
        refused_unless (is_nat z 1) _
          (with_block r.block
            (verify_transfer_logs lower asset payer pay_to amount unicode repr r.logs))
          (block_on r.block r.logs _ (transfer_on r.logs)))

    lookup_on :
        (tx : String) (o : Lookup)
        → ((judge_lookup lower asset payer pay_to amount unicode repr tx o).0 ≡ pass) ↔ Proves tx o
    lookup_on tx no_web3 = (λ h. cc, λ e. elim e [ ])
    lookup_on tx (not_found exc) = (λ h. cc, λ e. elim e [ ])
    lookup_on tx (found r) =
        refused_if (other_hash lower tx r.transaction_hash) _
          (judge_status lower asset payer pay_to amount unicode repr tx r r.status)
          (status_on tx r r.status)

    -- RS-PAY-004 takes a settlement for proven exactly if its transaction hash is canonical and the
    -- chain has a receipt for it, which names no other transaction and says success, and in whose logs
    -- there is exactly one Transfer event of the asset, with three topics, that goes from the payer to
    -- the recipient and moves exactly the amount, between well-formed addresses.
    pub verify_tx_onchain_iff :
        (look_up : String → Lookup) (tx : String)
        → ((verify_tx_onchain lower asset payer pay_to amount unicode repr look_up tx).0 ≡ pass)
          ↔ ((is_evm_tx_hash tx ≡ true) × Proves tx (look_up tx))
    unfolding verify_tx_onchain
    verify_tx_onchain_iff look_up tx =
        refused_unless (is_evm_tx_hash tx) _
          (judge_lookup lower asset payer pay_to amount unicode repr tx (look_up tx))
          (lookup_on tx (look_up tx))
