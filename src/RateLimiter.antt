-- ===== src/RateLimiter.antt =====
-- src/mei/infrastructure/llm/rate_limiter.py: the retries of a request to a language model. The queue
-- and the pacing, which only wait, are left out; the request is a parameter that says how each attempt
-- ends, and so is the random jitter.
pub mod Attempts
mod Tests
-- What the limiter reads off an exception: whether it is retryable, and its `Retry-After`.
use middle_east_geopolitic.Common.{
  none, ◌-◌, zero, ◌*◌, some, if◌then◌else◌, Option, suc, [], ◌∷◌, List, ℕ, Bool,
}
use middle_east_geopolitic.Common.Float.{fmax, fmin, Float}
use middle_east_geopolitic.Common.Int.{pos_part, ℤ}

pub record Failure (F : Type 0) : Type 0 where
  pub is_retryable : Bool
  pub retry_after : Option F

pub data Attempt (F : Type 0) (A : Type 0) : Type 0 where
  returned : A → Attempt F A
  raised : Failure F → Attempt F A

-- The limits after the constructor has put them in range.
pub record AsyncRateLimiter (F : Type 0) : Type 0 where
  pub max_retries : ℕ
  pub backoff_base_seconds : F
  pub backoff_max_seconds : F

-- How a request ends, the delays before each retry, in order, and the number of calls.
pub record Execution (F : Type 0) (A : Type 0) : Type 0 where
  pub outcome : Attempt F A
  pub delays : List F
  pub calls : ℕ

unfoldable pub power_of_two : ℕ → ℕ
power_of_two zero = 1
power_of_two (suc n) = 2 * power_of_two n

module _ {F : Type 0} ⦃fl : Float F⦄ where
  -- `__init__`, where a tenth is given as a float.
  unfoldable pub new_limiter : F → ℤ → F → F → AsyncRateLimiter F
  new_limiter tenth max_retries base most = record {
    max_retries = pos_part max_retries;
    backoff_base_seconds = fmax tenth base;
    backoff_max_seconds = fmax (fl.of_ℕ 1) most;
  }

  -- The delay before retry number `attempt`, which counts from 1.
  unfoldable pub delay_of : AsyncRateLimiter F → (ℕ → F) → ℕ → Option F → F
  delay_of l jitter attempt (some seconds) = fmin l.backoff_max_seconds seconds
  delay_of l jitter attempt none = fmin l.backoff_max_seconds (
      fl.add (fl.mul l.backoff_base_seconds (fl.of_ℕ (power_of_two (attempt - 1))))
        (jitter attempt))

  module _ {A : Type 0} where
    abbrev pub after_delay : F → Execution F A → Execution F A
    after_delay d x = record { outcome = x.outcome; delays = d ∷ x.delays; calls = suc x.calls }

    abbrev pub once : Attempt F A → Execution F A
    once a = record { outcome = a; delays = []; calls = 1 }

    -- The `try` and `except` of one attempt, before a retry.
    abbrev pub after_attempt : (Failure F → F) → Execution F A → Attempt F A → Execution F A
    after_attempt delay retried (returned a) = once (returned a)
    after_attempt delay retried (raised e) =
        if e.is_retryable then after_delay (delay e) retried else once (raised e)

    -- The loop after `attempt` retries, where `left` more are allowed: `attempt >= max_retries` says that
    -- none is.
    unfoldable pub attempts :
        AsyncRateLimiter F → (ℕ → F) → (ℕ → Attempt F A) → ℕ → ℕ → Execution F A
    attempts l jitter func attempt zero = once (func attempt)
    attempts l jitter func attempt (suc left) =
        let retried = attempts l jitter func (suc attempt) left in
        after_attempt (λ e. delay_of l jitter (suc attempt) e.retry_after) retried (func attempt)

    unfoldable pub execute : AsyncRateLimiter F → (ℕ → F) → (ℕ → Attempt F A) → Execution F A
    execute l jitter func = attempts l jitter func 0 l.max_retries
