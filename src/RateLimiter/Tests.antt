-- ===== src/RateLimiter/Tests.antt =====
-- A request that fails twice and then returns, and the theorem at it.
use middle_east_geopolitic.Common.Fixed.{thousandths, thousandths-IsOrdered}
use middle_east_geopolitic.RateLimiter.Attempts.{execute-IsFaithful, IsFaithful}
use middle_east_geopolitic.RateLimiter.{
  returned, raised, power_of_two, delay_of, attempts, Attempt, execute, new_limiter,
  AsyncRateLimiter, Failure,
}
use middle_east_geopolitic.Common.{[], zero, ◌∷◌, suc, refl, some, none, String, true, ◌≡◌, ℕ}
use middle_east_geopolitic.Common.Int.{pos, ℤ}

abbrev limiter : AsyncRateLimiter ℤ
limiter = new_limiter (pos 100) (pos 5) (pos 2000) (pos 60000)

abbrev busy : Failure ℤ
busy = record { is_retryable = true; retry_after = none }

abbrev far : Failure ℤ
far = record { is_retryable = true; retry_after = some (pos 90000) }

abbrev request : ℕ → Attempt ℤ String
request zero = raised busy
request (suc zero) = raised far
request (suc (suc n)) = returned "reply"

abbrev jitter : ℕ → ℤ
jitter n = pos 300

run :
    execute
      (record { max_retries = 5; backoff_base_seconds = pos 2000; backoff_max_seconds = pos 60000 })
      jitter
      request
    ≡ record { outcome = returned "reply"; delays = pos 2300 ∷ pos 60000 ∷ []; calls = 3 }
unfolding execute attempts delay_of power_of_two
run = refl

put_in_range :
    limiter
    ≡ record { max_retries = 5; backoff_base_seconds = pos 2000; backoff_max_seconds = pos 60000 }
unfolding new_limiter
put_in_range = refl

execute-IsFaithful_example :
    IsFaithful limiter request 0 limiter.max_retries (execute limiter jitter request)
execute-IsFaithful_example = execute-IsFaithful thousandths-IsOrdered limiter jitter request
