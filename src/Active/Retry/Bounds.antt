-- ===== src/Active/Retry/Bounds.antt =====
-- The retries of active.py are bounded, and they hide no fault that lasts.
use x402_conformance.Prelude.{
  ℕ, zero, suc, ◌+◌, ◌≤◌, ◌<◌, ◌≡◌, ◌⊎◌, refl, ap, subst, some-inj, Bool, if◌then◌else◌, ◌∙◌, inl,
  inr, String, true, false, Option, none, some, arith, All, length, Option-cases, Bool-cases, ltb,
  ◌&&◌,
}
use x402_conformance.Prelude.Int.{ℤ}
use x402_conformance.Json.{Json}
use x402_conformance.Safety.Digits.{Unicode, int_text}
use x402_conformance.Active.Response.{HttpResponse, ActiveResponse, Headers, header, Decoded}
use x402_conformance.Active.Retry.{
  is_transient, max_retries, backoff, retry_after_cap, retry_delay, overflows, Outcome, retryable,
  fatal, answered, Exchange, slept, finish, conclude, do_from, do_request,
}

-- A fault that `_do` tries again while it may.
abbrev pub Transient : Outcome → Type 0
Transient (retryable name) = Unit
Transient (fatal name) = ⊥
Transient (answered r) = is_transient r.status_code ≡ true

backoff-le-cap : (attempt : ℕ) → attempt < 2 → backoff attempt ≤ retry_after_cap
backoff-le-cap zero h = omega arith
backoff-le-cap (suc zero) h = omega arith
backoff-le-cap (suc (suc n)) h = absurd (omega arith)

capped_if :
    (b : Bool) (n d : ℕ)
    → n ≤ retry_after_cap
    → (if b then none else some n) ≡ some d
    → d ≤ retry_after_cap
capped_if b n d k h = ground (arith, k)

-- Whatever the `Retry-After` header holds, a wait before the third attempt is at most 30 seconds.
pub retry_delay-le-cap :
    (unicode : Unicode) (headers : Headers) (attempt delay : ℕ)
    → attempt < max_retries
    → retry_delay unicode headers attempt ≡ some delay
    → delay ≤ retry_after_cap
unfolding retry_delay
retry_delay-le-cap unicode headers attempt delay h d =
    elim (Option-cases (header headers "retry-after")) [
      | inl absent ↦
          let e : some (backoff attempt) ≡ some delay = rw (absent, retry_delay) at d in
          omega (arith, backoff-le-cap attempt h, some-inj e)
      | inr (raw, given) ↦ elim (Option-cases (int_text unicode raw)) [
        | inl other ↦
            let e : some (backoff attempt) ≡ some delay = rw (given, other, retry_delay) at d in
            omega (arith, backoff-le-cap attempt h, some-inj e)
        | inr (z, number) ↦
            capped_if (overflows z) _ delay (omega arith) (rw (given, number, retry_delay) at d)
      ]
    ]

-- The header is a number that no float holds.
abbrev pub TooLarge : Unicode → Headers → Type 0
TooLarge unicode headers =
    (raw : String) × (z : ℤ) × (header headers "retry-after" ≡ some raw)
    × (int_text unicode raw ≡ some z)
    × (overflows z ≡ true)

unless_too_large :
    (b : Bool) (n : ℕ) → ◌≡◌ {A = Option ℕ} (if b then none else some n) none → b ≡ true
unless_too_large b n h = ground arith

pub retry_delay-TooLarge :
    (unicode : Unicode) (headers : Headers) (attempt : ℕ)
    → retry_delay unicode headers attempt ≡ none
    → TooLarge unicode headers
unfolding retry_delay
retry_delay-TooLarge unicode headers attempt d =
    elim (Option-cases (header headers "retry-after")) [
      | inl absent ↦
          let e : some (backoff attempt) ≡ none = rw (absent, retry_delay) at d in absurd (cc e)
      | inr (raw, given) ↦ elim (Option-cases (int_text unicode raw)) [
        | inl other ↦
            let e : some (backoff attempt) ≡ none = rw (given, other, retry_delay) at d in
            absurd (cc e)
        | inr (z, number) ↦ (
          raw,
          z,
          given,
          number,
          unless_too_large (overflows z) _ (rw (given, number, retry_delay) at d),
        )
      ]
    ]

module _ (unicode : Unicode) (decode : String → Decoded) (explain : Json → String)
    (marker : Option String) (request : ℕ → Outcome) where
  abbrev loop : ℕ → ℕ → Option String → Option Exchange
  loop = do_from unicode decode explain marker request

  abbrev answer_to : ℕ → ActiveResponse
  answer_to k = conclude decode explain marker (request k)

  -- What the exchange from attempt `start` on is: the answer of attempt `last`, after transient
  -- faults alone, with one capped wait behind each.
  pub record Settled (start : ℕ) (x : Exchange) : Type 0 where
    pub last : ℕ
    pub bounded : last ≤ max_retries
    pub answer : x.answer ≡ answer_to last
    pub waits : start + length x.delays ≡ last
    pub retried : (j : ℕ) → start ≤ j → j < last → Transient (request j)
    pub final : (last ≡ max_retries) ⊎ ¬ Transient (request last)
    pub capped : All (λ d. d ≤ retry_after_cap) x.delays

  Settled-stop :
      (attempt : ℕ)
      → attempt ≤ max_retries
      → (attempt ≡ max_retries) ⊎ ¬ Transient (request attempt)
      → Settled attempt (finish (answer_to attempt))
  Settled-stop attempt h f = record {
    last = attempt;
    bounded = h;
    answer = refl;
    waits = omega arith;
    retried = λ j p q. absurd (omega arith);
    final = f;
    capped = tt;
  }

  -- An attempt before the third was answered by a transient status with a `Retry-After` that no float
  -- holds, after transient faults alone.
  pub record Escaped (start : ℕ) : Type 0 where
    pub last : ℕ
    pub not_before : start ≤ last
    pub in_time : last < max_retries
    pub retried : (j : ℕ) → start ≤ j → j < last → Transient (request j)
    pub response : HttpResponse
    pub is_answer : request last ≡ answered response
    pub is_repeated : is_transient response.status_code ≡ true
    pub too_large : TooLarge unicode response.headers

  abbrev pub Ends : ℕ → Option Exchange → Type 0
  Ends start none = Escaped start
  Ends start (some x) = Settled start x

  still_transient :
      (attempt last : ℕ)
      → Transient (request attempt)
      → ((j : ℕ) → attempt + 1 ≤ j → j < last → Transient (request j))
      → (j : ℕ) → attempt ≤ j
      → j < last
      → Transient (request j)
  still_transient attempt last t later j p q = elim (Bool-cases (ltb attempt j)) [
    | inl behind ↦ later j (ground arith) q
    | inr here ↦ let e : attempt ≡ j = ground arith in subst (λ i. Transient (request i)) e t
  ]

  Ends-slept :
      (attempt : ℕ) (delay : Option ℕ) (o : Option Exchange)
      → ((d : ℕ) → delay ≡ some d → d ≤ retry_after_cap)
      → (delay ≡ none → Escaped attempt)
      → Transient (request attempt)
      → Ends (attempt + 1) o
      → Ends attempt (slept delay o)
  Ends-slept attempt none o h k t s = k refl
  Ends-slept attempt (some delay) none h k t s = record {
    last = s.last;
    not_before = let b = s.not_before in omega arith;
    in_time = s.in_time;
    retried = still_transient attempt s.last t s.retried;
    response = s.response;
    is_answer = s.is_answer;
    is_repeated = s.is_repeated;
    too_large = s.too_large;
  }
  Ends-slept attempt (some delay) (some x) h k t s = record {
    last = s.last;
    bounded = s.bounded;
    answer = s.answer;
    waits = let w = s.waits in omega arith;
    retried = still_transient attempt s.last t s.retried;
    final = s.final;
    capped = (h delay refl, s.capped);
  }

  Ends-round :
      (rounds attempt : ℕ) (e : Option String) (o : Outcome)
      → request attempt ≡ o
      → attempt < max_retries
      → ((e' : Option String) → Ends (attempt + 1) (loop rounds (attempt + 1) e'))
      → Ends attempt (loop (suc rounds) attempt e)
  unfolding do_from
  Ends-round rounds attempt e (retryable name) r h ih =
      let more : ltb attempt max_retries ≡ true = ground arith in
      let capped : (d : ℕ) → some (backoff attempt) ≡ some d → d ≤ retry_after_cap =
        λ d q. omega (arith, backoff-le-cap attempt h, some-inj q) in
      rw (r, more, do_from)
        (Ends-slept attempt (some (backoff attempt)) _ capped (λ q. absurd (cc q)) (rw r tt)
          (ih (some name)))
  Ends-round rounds attempt e (fatal name) r h ih =
      rw (r, do_from)
        (subst (λ o. Settled attempt (finish (conclude decode explain marker o))) r
          (Settled-stop attempt (omega arith) (inr (rw r (λ b. b)))))
  Ends-round rounds attempt e (answered response) r h ih =
      let more : ltb attempt max_retries ≡ true = ground arith in
      elim (Bool-cases (is_transient response.status_code)) [
        | inl transient ↦
            rw (r, transient, more, do_from)
              (Ends-slept attempt (retry_delay unicode response.headers attempt) _
                (λ d. retry_delay-le-cap unicode response.headers attempt d h)
                (λ none_left. record {
                  last = attempt;
                  not_before = omega arith;
                  in_time = h;
                  retried = λ j p q. absurd (omega arith);
                  response = response;
                  is_answer = r;
                  is_repeated = transient;
                  too_large = retry_delay-TooLarge unicode response.headers attempt none_left;
                })
                (rw r transient) (ih e))
        | inr other ↦
            rw (r, other, do_from)
              (subst (λ o. Settled attempt (finish (conclude decode explain marker o))) r
                (Settled-stop attempt (omega arith) (inr (rw r (λ t. cc)))))
      ]

  -- In the last round nothing is repeated.
  Ends-last :
      (e : Option String) (o : Outcome)
      → request max_retries ≡ o
      → Ends max_retries (loop 1 max_retries e)
  unfolding do_from
  Ends-last e (retryable name) r =
      rw (r, do_from)
        (subst (λ o. Settled max_retries (finish (conclude decode explain marker o))) r
          (Settled-stop max_retries (omega arith) (inl refl)))
  Ends-last e (fatal name) r =
      rw (r, do_from)
        (subst (λ o. Settled max_retries (finish (conclude decode explain marker o))) r
          (Settled-stop max_retries (omega arith) (inl refl)))
  Ends-last e (answered response) r =
      let tested : (is_transient response.status_code && ltb max_retries max_retries) ≡ false =
        ground arith in
      rw (r, tested, do_from)
        (subst (λ o. Settled max_retries (finish (conclude decode explain marker o))) r
          (Settled-stop max_retries (omega arith) (inl refl)))

  -- A payment request is sent at most three times, and before the last attempt stand only transient
  -- faults. Either the answer is that of the last attempt, with one wait of at most 30 seconds behind
  -- each one before it, and the last attempt is the third one, or its fault, if any, was not
  -- transient. Or the request ends by an OverflowError, and then the last attempt, which is not the
  -- third, was answered by a transient status with a `Retry-After` that no float holds.
  pub do_request-Ends : Ends 0 (do_request unicode decode explain marker request)
  unfolding do_request
  do_request-Ends =
      Ends-round 2 0 none (request 0) refl (omega arith)
        λ e. Ends-round 1 1 e (request 1) refl (omega arith) λ e'. Ends-last e' (request 2) refl

  steady_on :
      (o : Outcome) (r : Option Exchange) (x : Exchange)
      → ((k : ℕ) → request k ≡ o)
      → Ends 0 r
      → r ≡ some x
      → x.answer ≡ conclude decode explain marker o
  steady_on o none x same s h = absurd (cc h)
  steady_on o (some y) x same s h =
      let e : y ≡ x = some-inj h in
      subst (λ z. z.answer ≡ conclude decode explain marker o) e
        (s.answer ∙ ap (conclude decode explain marker) (same s.last))

  -- A fault that every attempt meets is the answer, as if there were no retries.
  pub do_request_steady :
      (o : Outcome) (x : Exchange)
      → ((k : ℕ) → request k ≡ o)
      → do_request unicode decode explain marker request ≡ some x
      → x.answer ≡ conclude decode explain marker o
  do_request_steady o x same h =
      steady_on o (do_request unicode decode explain marker request) x same do_request-Ends h
