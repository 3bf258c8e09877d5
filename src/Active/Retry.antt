-- ===== src/Active/Retry.antt =====
-- active.py: the bounded retries of one payment request. Delays are in milliseconds.
pub mod Bounds
use x402_conformance.Prelude.{
  ℕ, zero, suc, ◌+◌, ◌-◌, ◌*◌, leb, ◌^◌, min, String, Bool, true, false, Option, none, some, List,
  [], ◌∷◌, ◌==◌, nat_eq, ltb, ◌&&◌, ◌||◌, if◌then◌else◌,
}
use mathlib.Core.Option
use x402_conformance.Prelude.Int.{ℤ, pos, negsuc, non_negative}
use x402_conformance.Safety.Digits.{Unicode, int_text}
use x402_conformance.Active.Response.{
  Headers, header, HttpResponse, ActiveResponse, unanswered, Decoded, response_from, mark_leak,
}
use x402_conformance.Json.{Json}

-- `status in _TRANSIENT_STATUS`
abbrev pub is_transient : ℕ → Bool
is_transient s = s == 429 || s == 502 || s == 503 || s == 504

abbrev pub max_retries : ℕ
max_retries = 2

abbrev pub retry_backoff : ℕ
retry_backoff = 500

abbrev pub retry_after_cap : ℕ
retry_after_cap = 30000

-- `_RETRY_BACKOFF * (2**attempt)`
abbrev pub backoff : ℕ → ℕ
backoff attempt = retry_backoff * 2 ^ attempt

-- `float(z)` raises OverflowError from the middle between the largest float and 2 ** 1024 on.
unfoldable pub overflows : ℤ → Bool
overflows (pos n) = leb (2 ^ 1024 - 2 ^ 970) n
overflows (negsuc n) = leb (2 ^ 1024 - 2 ^ 970) (n + 1)

-- The delay, or `none` for the OverflowError, which is no ValueError and escapes.
module _ (unicode : Unicode) where
  unfoldable pub retry_delay : Headers → ℕ → Option ℕ
  unfolding header overflows
  retry_delay headers attempt = elim (header headers "retry-after") [
    | none ↦ some (backoff attempt)
    | some raw ↦ elim (int_text unicode raw) [
      | none ↦ some (backoff attempt)
      | some seconds ↦
          if overflows seconds
          then none
          else some (min (1000 * non_negative seconds) retry_after_cap)
    ]
  ]

-- What one `client.request` did: a fault that is worth a retry, another one, or a response.
pub data Outcome : Type 0 where
  retryable : String → Outcome
  fatal : String → Outcome
  answered : HttpResponse → Outcome

-- The answer that the checks see, and the delays that were slept through on the way.
pub record Exchange : Type 0 where
  pub answer : ActiveResponse
  pub delays : List ℕ

abbrev pub with_delay : ℕ → Exchange → Exchange
with_delay delay e = record e { delays = delay ∷ e.delays }

-- The rest of the loop behind a delay; `none` is the exception that escapes.
abbrev pub slept : Option ℕ → Option Exchange → Option Exchange
slept none rest = none
slept (some delay) rest = Option.map (with_delay delay) rest

abbrev pub finish : ActiveResponse → Exchange
finish r = record { answer = r; delays = [] }

module _ (decode : String → Decoded) (explain : Json → String) (marker : Option String) where
  -- The answer to an attempt that is not repeated.
  unfoldable pub conclude : Outcome → ActiveResponse
  conclude (retryable name) = unanswered (some name)
  conclude (fatal name) = unanswered (some name)
  conclude (answered response) = mark_leak marker (response_from decode explain response)

module _ (unicode : Unicode) (decode : String → Decoded) (explain : Json → String)
    (marker : Option String) (request : ℕ → Outcome) where
  -- The loop of `_do`, by the rounds that are left. `request attempt` is what the attempt meets.
  -- `none` is the OverflowError of a delay, which `_do` does not catch.
  unfoldable pub do_from : ℕ → ℕ → Option String → Option Exchange
  unfolding conclude
  do_from zero attempt transport_err = some (finish (unanswered transport_err))
  do_from (suc rounds) attempt transport_err = elim (request attempt) [
    | retryable name ↦
        let rest = do_from rounds (attempt + 1) (some name) in
        if ltb attempt max_retries
        then slept (some (backoff attempt)) rest
        else some (finish (unanswered (some name)))
    | fatal name ↦ some (finish (conclude decode explain marker (fatal name)))
    | answered response ↦
        let rest = do_from rounds (attempt + 1) transport_err in
        if is_transient response.status_code && ltb attempt max_retries
        then slept (retry_delay unicode response.headers attempt) rest
        else some (finish (conclude decode explain marker (answered response)))
  ]

  unfoldable pub do_request : Option Exchange
  unfolding do_from
  do_request = do_from (max_retries + 1) 0 none
