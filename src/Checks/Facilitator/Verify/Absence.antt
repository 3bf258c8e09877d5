-- ===== src/Checks/Facilitator/Verify/Absence.antt =====
-- Which results of the checks of /verify say that the endpoint is absent.
use x402_conformance.Prelude.{
  ℕ, String, refl, Bool, true, false, ◌≡◌, ◌↔◌, ◌⊎◌, Option, some, List, ◌∷◌, arith, string_eq,
  nat_eq, Bool-cases, Option-cases, inl, inr, subst, sym, ◌∙◌, not,
}
use x402_conformance.Json.{Json, Fields}
use x402_conformance.Models.{VerifyResponse, verify_of_json}
use x402_conformance.Active.Response.{Headers, header}
use x402_conformance.Payload.{PaymentPayload}
use x402_conformance.Probe.{member, Loaded, document, malformed, too_deep}
use x402_conformance.Checks.Base.{Status, skip, ReasonCode, CheckResult}
use x402_conformance.Checks.Facilitator.{
  Client, FaState, Outcome, done, http_error, crashed, Call, continue, return, post, response,
  absent, is_absent, is_gradable, send,
}
use x402_conformance.Checks.Facilitator.Evaluate.{FaCheck, finish_check, reason_code_of}
use x402_conformance.Checks.Facilitator.Verify.{
  Answer, judge_002, judge_003, judge_004, judge_err, judge_reason, is_canonical, grade_answer,
  read_answer, note_extension_responses, verify, verify_raw,
}

-- How a check may end on an answer of the status: without a transport error, marked exactly if the
-- status says that the endpoint is absent, and then skipped.
abbrev pub Ends : String → Bool → Outcome (Status × String) × FaState → Type 0
Ends check_id gone (done (status, detail), s) =
    (member check_id s.absent_checks ≡ gone) × (gone ≡ true → status ≡ skip)
Ends check_id gone (http_error e, s) = ⊥
Ends check_id gone (crashed exc, s) = (member check_id s.absent_checks ≡ false) × (gone ≡ false)

-- The endpoint is absent.
abbrev pub IsAbsent : ℕ → Type 0
IsAbsent status = (status ≡ 404) ⊎ ((status ≡ 405) ⊎ (status ≡ 501))

-- The check has a result. Its reason is that the endpoint is absent exactly if the status says so, and
-- then it is skipped.
abbrev pub Reports : ℕ → Outcome CheckResult → Type 0
Reports status o =
    (r : CheckResult) × (o ≡ done r)
    × ((r.reason_code ≡ some ReasonCode.endpoint_absent) ↔ IsAbsent status)
    × (IsAbsent status → r.status ≡ skip)

reason_of :
    (s : FaState) (check_id : String) (status : Status) (gone : Bool)
    → member check_id s.absent_checks ≡ gone
    → (reason_code_of s check_id status ≡ some ReasonCode.endpoint_absent) ↔ (gone ≡ true)
unfolding reason_code_of
reason_of s check_id status gone h = ground (arith, h)

pub finish-Reports :
    (check : FaCheck) (status : ℕ) (x : Outcome (Status × String) × FaState)
    → Ends check.check_id (is_absent status) x
    → Reports status (finish_check check x).0
finish-Reports check status (done (verdict, detail), s) (marked, skipped) =
    let reason = reason_of s check.check_id verdict (is_absent status) marked in
    (
      _,
      refl,
      ((λ h. ground (arith, reason.0 h)), λ h. reason.1 (ground (arith, h))),
      λ h. skipped (ground (arith, h)),
    )
finish-Reports check status (http_error e, s) h = absurd h
finish-Reports check status (crashed exc, s) (marked, there) =
    let reason = reason_of s check.check_id Status.error false marked in
    (
      _,
      refl,
      ((λ h. absurd (cc (reason.0 h))), λ h. ground (arith, h, there)),
      λ h. ground (arith, h, there),
    )

-- The state does not mark the check yet.
abbrev pub Unmarked : String → FaState → Type 0
Unmarked check_id s = member check_id s.absent_checks ≡ false

marked : (check_id : String) (ids : List String) → member check_id (check_id ∷ ids) ≡ true
marked check_id ids = ground (arith, string_eq.beq_iff check_id check_id)

on_004 :
    (s : FaState) (status : ℕ)
    → Unmarked "FA-VER-004" s
    → Ends "FA-VER-004" (is_absent status) (judge_004 status s)
unfolding judge_004
on_004 s status h = elim (Bool-cases (is_absent status)) [
  | inl gone ↦ rw (gone, judge_004) (marked "FA-VER-004" s.absent_checks, λ e. refl)
  | inr there ↦ rw (there, judge_004) (ground (arith, h))
]

module _ (repr : Option String → String) (s : FaState) where
  pub on_002 :
      (a : Answer VerifyResponse)
      → Unmarked "FA-VER-002" s
      → Ends "FA-VER-002" (is_absent a.status) (judge_002 repr a s)
  unfolding judge_002
  on_002 a h = elim (Bool-cases (is_absent a.status)) [
    | inl gone ↦ rw (gone, judge_002) (marked "FA-VER-002" s.absent_checks, λ e. refl)
    | inr there ↦ elim (Option-cases a.response) [
      | inl p ↦ rw (there, p, judge_002) (h, λ e. cc)
      | inr (r, p) ↦ elim (Bool-cases r.is_valid) [
        | inl v ↦ rw (there, p, v, judge_002) (h, λ e. cc)
        | inr v ↦ rw (there, p, v, judge_002) (h, λ e. cc)
      ]
    ]
  ]

  pub on_003 :
      (a : Answer VerifyResponse)
      → Unmarked "FA-VER-003" s
      → Ends "FA-VER-003" (is_absent a.status) (judge_003 repr a s)
  unfolding judge_003
  on_003 a h = elim (Bool-cases (is_absent a.status)) [
    | inl gone ↦ rw (gone, judge_003) (marked "FA-VER-003" s.absent_checks, λ e. refl)
    | inr there ↦ elim (Option-cases a.response) [
      | inl p ↦ rw (there, p, judge_003) (h, λ e. cc)
      | inr (r, p) ↦ elim (Bool-cases r.is_valid) [
        | inl v ↦ rw (there, p, v, judge_003) (h, λ e. cc)
        | inr v ↦ elim (Bool-cases (is_canonical repr r.invalid_reason)) [
          | inl c ↦ rw (there, p, v, c, judge_003) (h, λ e. cc)
          | inr c ↦ rw (there, p, v, c, judge_003) (h, λ e. cc)
        ]
      ]
    ]
  ]

  pub on_err :
      (a : Answer VerifyResponse)
      → Unmarked "FA-ERR-001" s
      → Ends "FA-ERR-001" (is_absent a.status) (judge_err repr a s)
  unfolding judge_err judge_reason
  on_err a h = elim (Bool-cases (is_absent a.status)) [
    | inl gone ↦ rw (gone, judge_err) (marked "FA-ERR-001" s.absent_checks, λ e. refl)
    | inr there ↦ elim (Option-cases a.response) [
      | inl p ↦ rw (there, p, judge_err) (h, λ e. cc)
      | inr (r, p) ↦ rw (there, p, judge_err) (h, λ e. cc)
    ]
  ]

-- The check goes on with an answer of the status, or crashes where the endpoint is there.
module _ (check_id : String) (status : ℕ) (gone : Bool) (is_gone : is_absent status ≡ gone)
    (s : FaState) (fresh : Unmarked check_id s)
    (judge : Answer VerifyResponse → Call (Status × String))
    (judges : (a : Answer VerifyResponse)
      → a.status ≡ status
      → Ends check_id gone (judge a s)) where
  read-Ends :
      (validate : Json → Option VerifyResponse) (explain : Json → String) (path : String)
      → gone ≡ false
      → (l : Loaded)
      → Ends check_id gone (continue (read_answer validate explain path status l s) judge)
  read-Ends validate explain path there (document j) = elim (Option-cases (validate j)) [
    | inl n ↦ rw n (judges _ refl)
    | inr (r, q) ↦ rw q (judges _ refl)
  ]
  read-Ends validate explain path there (malformed text) = judges _ refl
  read-Ends validate explain path there too_deep = (fresh, there)

  grade-Ends :
      (validate : Json → Option VerifyResponse) (explain : Json → String) (path : String)
      (loads : String → Loaded) (body : String)
      → Ends check_id gone (continue (grade_answer validate explain path loads status body s) judge)
  grade-Ends validate explain path loads body = elim (Bool-cases (is_absent status)) [
    | inl absent ↦ rw absent (judges _ refl)
    | inr there ↦ elim (Bool-cases (not (is_gradable status))) [
      | inl other ↦ rw (there, other) (judges _ refl)
      | inr gradable ↦
          rw (there, gradable) (read-Ends validate explain path (sym is_gone ∙ there) (loads body))
    ]
  ]

noted :
    (check_id : String) (gone : Bool) (headers : Headers) (t : FaState)
    (go : Outcome (Unit {0}) × FaState → Outcome (Status × String) × FaState)
    → ((u : FaState) → Unmarked check_id u → Ends check_id gone (go (done tt, u)))
    → Unmarked check_id t
    → Ends check_id gone (go (note_extension_responses headers t))
noted check_id gone headers t go goes h =
    elim (Option-cases (header headers "extension-responses")) [
      | inl n ↦ rw (n, note_extension_responses) (goes _ h)
      | inr (value, q) ↦ rw (q, note_extension_responses) (goes _ h)
    ]

module _ (client : Client) (loads : String → Loaded) (explain : Json → String) (s : FaState)
    (status : ℕ) (headers : Headers) (body : String) (payload : PaymentPayload)
    (requirements : Fields)
    (replies : client s.sent (post "/verify" payload requirements)
      ≡ response status headers body) where
  pub verify-Ends :
      (check_id : String)
      → Unmarked check_id s
      → (judge : Answer VerifyResponse → Call (Status × String))
      → ((t : FaState) (a : Answer VerifyResponse)
          → Unmarked check_id t
          → Ends check_id (is_absent a.status) (judge a t))
      → Ends check_id
          (is_absent status)
          (continue (verify client loads explain payload requirements s) judge)
  unfolding verify send
  verify-Ends check_id fresh judge judges =
      let graded : (t : FaState)
          → Unmarked check_id t
          → Ends check_id (is_absent status)
              (continue (grade_answer verify_of_json explain "/verify" loads status body t) judge) =
        λ t u.
          grade-Ends check_id status (is_absent status) refl t u judge
            (λ a e. subst (λ n. Ends check_id (is_absent n) (judge a t)) e (judges t a u))
            verify_of_json explain "/verify" loads body in
      rw replies (
        noted check_id (is_absent status) headers _
          (λ x.
            continue
              (continue x (λ y. grade_answer verify_of_json explain "/verify" loads status body))
              judge)
          graded fresh)

  pub verify_raw-Ends :
      Unmarked "FA-VER-004" s
      → Ends "FA-VER-004"
          (is_absent status)
          (continue (verify_raw client loads explain payload requirements s) judge_004)
  unfolding verify_raw send
  verify_raw-Ends fresh = rw replies (
      noted "FA-VER-004" (is_absent status) headers _
        (λ x. continue (continue x (λ y. return status)) judge_004) (λ u h. on_004 u status h)
        fresh)
