-- ===== src/Runner/Retry.antt =====
-- runner.py: one unpaid request with its retries of transient statuses.
use x402_conformance.Prelude.{
  ℕ, zero, suc, ◌+◌, ◌≤◌, ◌<◌, ◌≡◌, ◌⊎◌, true, false, Option, none, some, List, [], ◌∷◌,
  if◌then◌else◌, length, All,
}
use mathlib.Core.Option
use x402_conformance.Safety.Digits.{Unicode}
use x402_conformance.Active.Response.{HttpResponse}
use x402_conformance.Active.Retry.{is_transient, max_retries, retry_delay, retry_after_cap}
use x402_conformance.Active.Retry.Bounds.{TooLarge}

-- The response with the delays, in milliseconds, that were slept through before it.
pub record Answered : Type 0 where
  pub response : HttpResponse
  pub delays : List ℕ

abbrev pub with_delay : ℕ → Answered → Answered
with_delay delay a = record a { delays = delay ∷ a.delays }

-- The answer behind a delay; `none` is the exception of the delay, which escapes.
abbrev pub delayed : Option ℕ → Option Answered → Option Answered
delayed none rest = none
delayed (some delay) rest = Option.map (with_delay delay) rest

module _ (unicode : Unicode) (request : ℕ → HttpResponse) where
  -- The loop by the retries that are left. `request n` is the answer to the request with number n.
  unfoldable pub retry_from : ℕ → ℕ → Option Answered
  unfolding retry_delay
  retry_from zero attempt = some (record { response = request attempt; delays = [] })
  retry_from (suc left) attempt =
      let rest = retry_from left (attempt + 1) in
      if is_transient (request attempt).status_code
      then delayed (retry_delay unicode (request attempt).headers attempt) rest
      else some (record { response = request attempt; delays = [] })

  unfoldable pub request_with_transient_retry : Option Answered
  unfolding retry_from
  request_with_transient_retry = retry_from max_retries 0

  abbrev pub Repeated : ℕ → Type 0
  Repeated n = is_transient (request n).status_code ≡ true

  -- The answer of the last request that was sent, with number `last`.
  pub record Settled (attempt left : ℕ) (a : Answered) : Type 0 where
    pub last : ℕ
    pub is_last : a.response ≡ request last
    pub not_before : attempt ≤ last
    pub in_time : last ≤ attempt + left
    pub waits : attempt + length a.delays ≡ last
    pub capped : All (λ d. d ≤ retry_after_cap) a.delays
    pub repeated : (n : ℕ) → attempt ≤ n → n < last → Repeated n
    pub final : (last ≡ attempt + left) ⊎ (is_transient (request last).status_code ≡ false)

  -- The last request was answered by a transient status with a `Retry-After` that no float holds.
  pub record Escaped (attempt left : ℕ) : Type 0 where
    pub last : ℕ
    pub not_before : attempt ≤ last
    pub in_time : last < attempt + left
    pub repeated : (n : ℕ) → attempt ≤ n → n ≤ last → Repeated n
    pub too_large : TooLarge unicode (request last).headers

  abbrev pub Ends : ℕ → ℕ → Option Answered → Type 0
  Ends attempt left none = Escaped attempt left
  Ends attempt left (some a) = Settled attempt left a
