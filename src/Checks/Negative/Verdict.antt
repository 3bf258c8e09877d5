-- ===== src/Checks/Negative/Verdict.antt =====
-- The shared verdict of checks/negative.py against what a clean rejection is.
use x402_conformance.Prelude.{
  ℕ, ◌<◌, String, ◌≡◌, ◌↔◌, ◌⊎◌, true, false, Option, none, some, List, any, [], ◌∷◌, sym, ◌∙◌,
  arith, Any, any_iff, nat_eq, string_eq, ◌==◌, nat_beq_iff,
}
use x402_conformance.Models.{SettlementResponse}
use x402_conformance.Active.Response.{ActiveResponse, served_resource, endpoint_crashed, settled_ok}
use x402_conformance.Checks.Base.{Status, pass, fail, status_eq}
use x402_conformance.Checks.Negative.{
  assert_rejected, broadcast_hash, with_malformed_note, neg_001, neg_002,
}

-- A settlement header that shows neither a settlement nor a broadcast.
abbrev pub Unsettled : Option SettlementResponse → Type 0
Unsettled none = Unit
Unsettled (some s) = (s.success ≡ false) × (s.transaction ≡ "")

-- What a clean rejection of an invalid payment is.
pub record Rejected (r : ActiveResponse) (allowed : List ℕ) : Type 0 where
  pub answered : r.transport_error ≡ none
  pub started : 0 < r.status_code
  pub no_fault : r.status_code < 500
  pub not_served : (r.status_code < 200) ⊎ (299 < r.status_code)
  pub settlement_readable : r.settlement_error ≡ none
  pub unsettled : Unsettled r.settlement
  pub no_leak : r.marker_leaked ≡ false
  pub expected : Any (λ c. c ≡ r.status_code) allowed

module _ (repr : String → String) (r : ActiveResponse) (allowed : List ℕ) where
  any-allowed_iff :
      (any (λ c. c == r.status_code) allowed ≡ true) ↔ Any (λ c. c ≡ r.status_code) allowed
  any-allowed_iff =
      any_iff (λ c. c == r.status_code) (λ c. c ≡ r.status_code) (λ c. nat_beq_iff c r.status_code)
        allowed

  -- The verdict is a PASS exactly on a clean rejection, and it is never a SKIP or an ERROR.
  pub assert_rejected_iff :
      (((assert_rejected repr r allowed).0 ≡ pass) ↔ Rejected r allowed)
      × (((assert_rejected repr r allowed).0 ≡ pass) ⊎ ((assert_rejected repr r allowed).0 ≡ fail))
  unfolding assert_rejected endpoint_crashed served_resource settled_ok
  assert_rejected_iff =
      let found = any-allowed_iff in
      let empty = string_eq.beq_iff (broadcast_hash r) "" in
      (
        (
          λ h. record {
            answered = ground (arith, found, empty);
            started = ground (arith, found, empty);
            no_fault = ground (arith, found, empty);
            not_served = ground (arith, found, empty);
            settlement_readable = ground (arith, found, empty);
            unsettled = ground (arith, found, empty);
            no_leak = ground (arith, found, empty);
            expected = ground (arith, found, empty);
          },
          λ h. ground (arith, found, empty),
        ),
        ground arith,
      )

with_malformed_note-status : (v : Status × String) → (with_malformed_note v).0 ≡ v.0
unfolding with_malformed_note
with_malformed_note-status v = ground arith

module _ (repr : String → String) (send_header : String → ActiveResponse) where
  -- The two malformed headers pass exactly on a clean rejection with status 400; every other answer
  -- is a FAIL, a 402 too, whatever note is added to its detail.
  pub malformed_iff :
      (((neg_001 repr send_header).0 ≡ pass) ↔ Rejected (send_header "!!!not-base64!!!") (400 ∷ []))
      × (((neg_002 repr send_header).0 ≡ pass)
          ↔ Rejected (send_header "e25vdCB2YWxpZCBqc29u") (400 ∷ []))
  unfolding neg_001 neg_002
  malformed_iff =
      let first = send_header "!!!not-base64!!!" in
      let second = send_header "e25vdCB2YWxpZCBqc29u" in
      let a = with_malformed_note-status (assert_rejected repr first (400 ∷ [])) in
      let b = with_malformed_note-status (assert_rejected repr second (400 ∷ [])) in
      (
        (
          λ h. (assert_rejected_iff repr first (400 ∷ [])).0.0 (sym a ∙ h),
          λ h. a ∙ (assert_rejected_iff repr first (400 ∷ [])).0.1 h,
        ),
        (
          λ h. (assert_rejected_iff repr second (400 ∷ [])).0.0 (sym b ∙ h),
          λ h. b ∙ (assert_rejected_iff repr second (400 ∷ [])).0.1 h,
        ),
      )
