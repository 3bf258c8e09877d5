-- ===== src/Checks/Facilitator/Settle/Sending.antt =====
-- What a call adds to the requests that were sent.
use x402_conformance.Prelude.{
  ℕ, String, refl, sym, ap, ◌∙◌, Bool, true, false, ◌≡◌, not, Option, List, [], ◌∷◌, ◌++◌,
  if◌then◌else◌,
}
use mathlib.Core.List.{append-nil, append_assoc}
use x402_conformance.Json.{Json, Fields}
use x402_conformance.Models.{settlement_of_json}
use x402_conformance.Payload.{PaymentPayload}
use x402_conformance.Probe.{Loaded, document, malformed, too_deep}
use x402_conformance.Checks.Facilitator.{
  FaState, Client, Call, Outcome, done, http_error, crashed, Request, Reply, response, http_failed,
  respond, post, send, continue, ◌>>=◌, is_absent, is_gradable,
}
use x402_conformance.Checks.Facilitator.Verify.{grade_answer, read_answer}
use x402_conformance.Checks.Facilitator.Settle.Flow.{settle}

-- What the call adds to the requests is as planned, however it ends.
abbrev pub Sends {ℓ} : {A : Type ℓ} → (List Request → Type 0) → Call A → Type 0
Sends P m = (s : FaState) → (new : List Request) × ((m s).1.sent ≡ s.sent ++ new) × P new

module _ {ℓ κ} {A : Type ℓ} {B : Type κ} (P Q R : List Request → Type 0)
    (joins : (p q : List Request) → P p → Q q → R (p ++ q)) (nothing : Q []) where
  pub continue-Sends :
      (r : Outcome A × FaState) (f : A → Call B) (old p : List Request)
      → r.1.sent ≡ old ++ p
      → P p
      → ((a : A) → Sends Q (f a))
      → (new : List Request) × ((continue r f).1.sent ≡ old ++ new) × R new
  continue-Sends (done a, s) f old p h k g =
      let (q, e, d) = g a s in
      (p ++ q, e ∙ ap (λ x. x ++ q) h ∙ append_assoc old p q, joins p q k d)
  continue-Sends (http_error e, s) f old p h k g =
      (p ++ [], h ∙ ap (λ x. old ++ x) (sym (append-nil p)), joins p [] k nothing)
  continue-Sends (crashed e, s) f old p h k g =
      (p ++ [], h ∙ ap (λ x. old ++ x) (sym (append-nil p)), joins p [] k nothing)

  pub bind-Sends :
      (m : Call A) (f : A → Call B) → Sends P m → ((a : A) → Sends Q (f a)) → Sends R (m >>= f)
  bind-Sends m f h g s = let (p, e, k) = h s in continue-Sends (m s) f s.sent p e k g

-- A call that leaves the requests alone.
abbrev pub Quiet {ℓ} : {A : Type ℓ} → Call A → Type 0
Quiet m = (s : FaState) → (m s).1.sent ≡ s.sent

pub Quiet-Sends {ℓ} :
    {A : Type ℓ} (P : List Request → Type 0) (m : Call A) → P [] → Quiet m → Sends P m
Quiet-Sends P m k h s = ([], h s ∙ sym (append-nil s.sent), k)

pub Quiet-if {ℓ} :
    {A : Type ℓ} (b : Bool) (m n : Call A) → Quiet m → Quiet n → Quiet (if b then m else n)
Quiet-if true m n h k = h
Quiet-if false m n h k = k

module _ {ℓ} {A : Type ℓ} (validate : Json → Option A) (explain : Json → String)
    (path : String) where
  pub read_answer-Quiet :
      (status : ℕ) (l : Loaded) → Quiet (read_answer validate explain path status l)
  read_answer-Quiet status (document j) s = refl
  read_answer-Quiet status (malformed text) s = refl
  read_answer-Quiet status too_deep s = refl

  pub grade_answer-Quiet :
      (loads : String → Loaded) (status : ℕ) (body : String)
      → Quiet (grade_answer validate explain path loads status body)
  grade_answer-Quiet loads status body =
      Quiet-if (is_absent status) _ _ (λ s. refl)
        (Quiet-if (not (is_gradable status)) _ _ (λ s. refl)
          (read_answer-Quiet status (loads body)))

-- A call that adds these requests, however it ends.
abbrev pub Adds {ℓ} : {A : Type ℓ} → List Request → Call A → Type 0
Adds new m = (s : FaState) → (m s).1.sent ≡ s.sent ++ new

pub respond-Adds : (r : Request) (o : Reply) → Adds (r ∷ []) (respond r o)
respond-Adds r (response status headers body) s = refl
respond-Adds r (http_failed e) s = refl

pub continue-Adds {ℓ κ} :
    {A : Type ℓ} {B : Type κ} (r : Outcome A × FaState) (f : A → Call B)
    → ((a : A) → Quiet (f a))
    → (continue r f).1.sent ≡ r.1.sent
continue-Adds (done a, s) f q = q a s
continue-Adds (http_error e, s) f q = refl
continue-Adds (crashed e, s) f q = refl

module _ (client : Client) (loads : String → Loaded) (explain : Json → String) where
  pub send-Adds : (r : Request) → Adds (r ∷ []) (send client r)
  unfolding send
  send-Adds r s = respond-Adds r (client s.sent r) s

  pub settle-Adds :
      (payload : PaymentPayload) (requirements : Fields)
      → Adds
          (post "/settle" payload requirements ∷ [])
          (settle client loads explain payload requirements)
  unfolding settle
  settle-Adds payload requirements s =
      let r = post "/settle" payload requirements in
      continue-Adds (send client r s)
        (λ (status, headers, body).
          grade_answer settlement_of_json explain "/settle" loads status body)
        (λ (status, headers, body).
          grade_answer-Quiet settlement_of_json explain "/settle" loads status body)
      ∙ send-Adds r s
