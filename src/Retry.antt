-- ===== src/Retry.antt =====
-- Which failures are worth another attempt, and how long to wait (app/services/retry_policy.py).
use tuzka_as_a_service.Prelude.{
  ℕ, ◌*◌, ◌^◌, ◌≤◌, Bool, true, false, ◌||◌, Option, none, some, leb, ◌==◌, if◌then◌else◌, min,
  Text, arith,
}

-- What an engine call raises: a transport failure, an HTTP error status, or anything else.
pub data Exn : Type 0 where
  transport_error : Text → Exn
  http_status_error : ℕ → Text → Exn
  other_error : Text → Exn

-- `http_status_of`.
abbrev pub http_status_of : Exn → Option ℕ
http_status_of (http_status_error code text) = some code
http_status_of _ = none

-- `is_retryable_dispatch_error`.
unfoldable pub is_retryable_dispatch_error : Exn → Bool
is_retryable_dispatch_error (transport_error text) = true
is_retryable_dispatch_error (http_status_error code text) =
    leb 500 code || (code == 408 || code == 429)
is_retryable_dispatch_error (other_error text) = false

-- `is_retryable_poll_error`.
unfoldable pub is_retryable_poll_error : Exn → Bool
unfolding is_retryable_dispatch_error
is_retryable_poll_error (http_status_error code text) =
    if is_retryable_dispatch_error (http_status_error code text) then true else code == 404
is_retryable_poll_error e = is_retryable_dispatch_error e

-- `is_retryable_engine_failure`.
unfoldable pub is_retryable_engine_failure : Option ℕ → Bool
is_retryable_engine_failure none = true
is_retryable_engine_failure (some code) = leb 500 code

-- `counts_against_backend` of app/services/perf.py.
unfoldable pub counts_against_backend : Option ℕ → Bool
counts_against_backend none = true
counts_against_backend (some code) = leb 500 code || (code == 408 || code == 429)

-- `backoff_seconds`, in milliseconds; `uniform` is one draw of the random source up to a bound.
unfoldable pub backoff : (ℕ → ℕ) → ℕ → ℕ
backoff uniform attempt = uniform (min 30000 (1000 * 2 ^ attempt))

-- A draw is at most its bound.
abbrev pub IsUniform : (ℕ → ℕ) → Type 0
IsUniform uniform = (bound : ℕ) → uniform bound ≤ bound

pub backoff-le :
    (uniform : ℕ → ℕ) (attempt : ℕ) → IsUniform uniform → backoff uniform attempt ≤ 30000
unfolding backoff
backoff-le uniform attempt u = omega (arith, u (min 30000 (1000 * 2 ^ attempt)))
