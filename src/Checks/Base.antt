-- ===== src/Checks/Base.antt =====
-- checks/base.py: severities, statuses, reason codes, results, and the registry of checks.
use x402_conformance.Prelude.{
  String, ◌≡◌, ◌↔◌, Bool, true, false, Option, none, some, List, [], ◌∷◌, ◌++◌, arith, any, ◌==◌,
  Eq, string_eq, if◌then◌else◌,
}

pub data Severity : Type 0 where
  critical major minor : Severity

pub data Status : Type 0 where
  pass fail skip error : Status

-- The values that one result's `reason_code` may carry (`PER_CHECK_REASON_CODES`).
pub data ReasonCode : Type 0 where
  deferred_pending_upstream endpoint_absent settlement_pending noncanonical_reason : ReasonCode

-- The values of a report's `inconclusiveReason` (`INCONCLUSIVE_REASONS`).
pub data InconclusiveReason : Type 0 where
  unreachable invalid_input not_x402_v2 no_checks_applicable : InconclusiveReason
  endpoint_absent deferred_pending_upstream settlement_pending : InconclusiveReason

abbrev pub status_beq : Status → Status → Bool
status_beq pass pass = true
status_beq fail fail = true
status_beq skip skip = true
status_beq error error = true
status_beq _ _ = false

pub status_beq_iff : (a b : Status) → (status_beq a b ≡ true) ↔ (a ≡ b)
status_beq_iff a b = ground arith

instance abbrev pub status_eq : Eq Status
status_eq = record { beq = status_beq; beq_iff = status_beq_iff }

abbrev pub reason_beq : ReasonCode → ReasonCode → Bool
reason_beq deferred_pending_upstream deferred_pending_upstream = true
reason_beq endpoint_absent endpoint_absent = true
reason_beq settlement_pending settlement_pending = true
reason_beq noncanonical_reason noncanonical_reason = true
reason_beq _ _ = false

-- `result.reason_code == code`, where the left side may be None
abbrev pub has_code : Option ReasonCode → ReasonCode → Bool
has_code none code = false
has_code (some c) code = reason_beq c code

pub has_code_iff : (o : Option ReasonCode) (c : ReasonCode) → (has_code o c ≡ true) ↔ (o ≡ some c)
has_code_iff o c = ground arith

pub record CheckResult : Type 0 where
  pub check_id : String
  pub title : String
  pub severity : Severity
  pub spec_ref : String
  pub status : Status
  pub detail : String
  pub reason_code : Option ReasonCode

-- What a check returns: `(status, detail)` or `(status, detail, reason_code)`.
pub data CheckReturn : Type 0 where
  plain : Status → String → CheckReturn
  qualified : Status → String → Option ReasonCode → CheckReturn

-- What a call of a check did: it returned, or it raised an exception, whose `repr` is kept.
pub data Ran {ℓ} (A : Type ℓ) : Type ℓ where
  returned : A → Ran A
  raised : String → Ran A

-- A registered check over the sessions or contexts `S` that it inspects.
pub record Check (S A : Type 0) : Type 0 where
  pub check_id : String
  pub title : String
  pub severity : Severity
  pub spec_ref : String
  pub func : S → Ran A

-- `append_unique_check`; `none` is the ValueError for a duplicate ID.
unfoldable pub append_unique_check {ℓ} : {A : Type ℓ} → (A → String) → List A → A → Option (List A)
append_unique_check id registry item =
    if any (λ existing. id existing == id item) registry then none else some (registry ++ item ∷ [])

-- The module's decorators, run in order of import.
unfoldable pub register_all {ℓ} : {A : Type ℓ} → (A → String) → List A → List A → Option (List A)
register_all id registry [] = some registry
register_all id registry (item ∷ items) = elim (append_unique_check id registry item) [
  | none ↦ none
  | some grown ↦ register_all id grown items
]
