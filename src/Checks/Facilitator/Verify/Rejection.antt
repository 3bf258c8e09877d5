-- ===== src/Checks/Facilitator/Verify/Rejection.antt =====
-- What the verdicts on the answers of /verify say.
use x402_conformance.Prelude.{
  Present, present_iff, missing_iff, ℕ, String, refl, ap, some-inj, ◌≤◌, ◌<◌, ◌⊎◌, Bool, true,
  false, ◌≡◌, ◌↔◌, not, Option, none, some, arith, string_eq, nat_eq, if◌then◌else◌,
}
use x402_conformance.Models.{VerifyResponse}
use x402_conformance.Checks.Base.{Status, pass, fail}
use x402_conformance.Checks.Facilitator.{
  FaState, Outcome, done, http_error, crashed, Call, return, noncanonical, is_absent,
}
use x402_conformance.Checks.Facilitator.Codes.{is_known}
use x402_conformance.Checks.Facilitator.Verify.{
  Answer, judge_002, judge_003, judge_004, judge_err, judge_reason,
}

-- The status of a check that returned.
abbrev pub status_of : Outcome (Status × String) → Option Status
status_of (done (status, detail)) = some status
status_of (http_error e) = none
status_of (crashed e) = none

-- The answer rejects the payment.
abbrev pub Rejects : VerifyResponse → Type 0
Rejects r = r.is_valid ≡ false

-- The answer gives a reason on the list of known codes, `KNOWN_ERROR_CODES`: those of the
-- specification, of the mechanisms, of the suite's own and those that are retired.
abbrev pub KnownReason : VerifyResponse → Type 0
KnownReason r = Present r.invalid_reason (λ reason. is_known reason ≡ true)

abbrev graded : Status → String → Status × String
graded status detail = (status, detail)

abbrev verdict : Status → String → Call (Status × String)
verdict status detail = return (status, detail)

if-rejects :
    (s : FaState) (b : Bool) (x y : String)
    → (status_of ((if b then verdict fail x else verdict pass y) s).0 ≡ some pass) ↔ (b ≡ false)
if-rejects s true x y = ground arith
if-rejects s false x y = ground arith

if-either :
    (s : FaState) (b c : Bool) (x y check_id z : String)
    → (status_of
          ((if b then verdict fail x else if c then verdict pass y else noncanonical check_id z)
            s).0
        ≡ some pass)
      ↔ (b ≡ false)
if-either s true c x y check_id z = ground arith
if-either s false true x y check_id z = ground arith
if-either s false false x y check_id z = ground arith

if-known :
    (b : Bool) (x y : String)
    → ((if not b then graded fail x else graded pass y).0 ≡ pass) ↔ (b ≡ true)
if-known true x y = ground arith
if-known false x y = ground arith

module _ (repr : Option String → String) (s : FaState) where
  on_002 :
      (a : Answer VerifyResponse) (o : Option VerifyResponse)
      → a.response ≡ o
      → is_absent a.status ≡ false
      → (status_of (judge_002 repr a s).0 ≡ some pass) ↔ Present o Rejects
  unfolding judge_002
  on_002 a none h p = rw (p, h, judge_002) (missing_iff Rejects _ (λ q. ground arith))
  on_002 a (some r) h p =
      rw (p, h, judge_002) (present_iff r Rejects _ (if-rejects s r.is_valid _ _))

  on_003 :
      (a : Answer VerifyResponse) (o : Option VerifyResponse)
      → a.response ≡ o
      → is_absent a.status ≡ false
      → (status_of (judge_003 repr a s).0 ≡ some pass) ↔ Present o Rejects
  unfolding judge_003
  on_003 a none h p = rw (p, h, judge_003) (missing_iff Rejects _ (λ q. ground arith))
  on_003 a (some r) h p =
      rw (p, h, judge_003) (present_iff r Rejects _ (if-either s r.is_valid _ _ _ _ _))

  reason_on :
      (o : Option String)
      → ((judge_reason repr o).0 ≡ pass) ↔ Present o (λ reason. is_known reason ≡ true)
  unfolding judge_reason
  reason_on none = missing_iff _ _ (λ q. ground arith)
  reason_on (some reason) = present_iff reason _ _ (if-known (is_known reason) _ _)

  on_reason : {x : Status} {P : Type 0} → (x ≡ pass) ↔ P → (some x ≡ some pass) ↔ P
  on_reason (to, from) = (λ h. to (some-inj h), λ p. ap some (from p))

  on_err :
      (a : Answer VerifyResponse) (o : Option VerifyResponse)
      → a.response ≡ o
      → is_absent a.status ≡ false
      → (status_of (judge_err repr a s).0 ≡ some pass) ↔ Present o KnownReason
  unfolding judge_err
  on_err a none h p = rw (p, h, judge_err) (missing_iff KnownReason _ (λ q. ground arith))
  on_err a (some r) h p =
      rw (p, h, judge_err) (present_iff r KnownReason _ (on_reason (reason_on r.invalid_reason)))

on_004 :
    (s : FaState) (status : ℕ)
    → is_absent status ≡ false
    → (status_of (judge_004 status s).0 ≡ some pass)
      ↔ (((200 ≤ status) × (status < 300)) ⊎ ((400 ≤ status) × (status < 500)))
unfolding judge_004
on_004 s status h = rw (h, judge_004) (ground arith)

module _ (repr : Option String → String) (s : FaState) where
  -- Where /verify is there, the underpayment and the payment in an address without code pass exactly
  -- if it answers and rejects them, FA-VER-004 exactly on a status of 200 to 299 or 400 to 499, and
  -- FA-ERR-001 exactly if it answers with a reason that is on the suite's list of known codes, the
  -- local and the retired ones included.
  pub verify_verdicts_iff :
      (a : Answer VerifyResponse)
      → is_absent a.status ≡ false
      → ((status_of (judge_002 repr a s).0 ≡ some pass) ↔ Present a.response Rejects)
        × ((status_of (judge_003 repr a s).0 ≡ some pass) ↔ Present a.response Rejects)
        × ((status_of (judge_err repr a s).0 ≡ some pass) ↔ Present a.response KnownReason)
        × ((status_of (judge_004 a.status s).0 ≡ some pass)
            ↔ (((200 ≤ a.status) × (a.status < 300)) ⊎ ((400 ≤ a.status) × (a.status < 500))))
  verify_verdicts_iff a h = (
    on_002 repr s a a.response refl h,
    on_003 repr s a a.response refl h,
    on_err repr s a a.response refl h,
    on_004 s a.status h,
  )
