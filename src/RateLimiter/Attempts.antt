-- ===== src/RateLimiter/Attempts.antt =====
-- How often a request is tried, how long it waits, and which attempt it reports.
use middle_east_geopolitic.Common.Float.{fmin-bound, ◌≼◌, IsOrdered, Float}
use middle_east_geopolitic.RateLimiter.{
  after_attempt, after_delay, execute, attempts, once, raised, Execution, returned, Attempt,
  AsyncRateLimiter, delay_of,
}
use middle_east_geopolitic.Common.{
  if◌then◌else◌, inr, subst, inl, ◌==◌, refl, Bool-cases, ◌∙◌, ap, zero, sym, ◌-◌, ◌+◌, All, none,
  arith, some, length, suc, ◌≤◌, true, ◌<◌, Option, ◌≡◌, ℕ,
}

module _ {F : Type 0} ⦃fl : Float F⦄ (o : IsOrdered F) where
  delay_of-bound :
      (l : AsyncRateLimiter F) (jitter : ℕ → F) (attempt : ℕ) (after : Option F)
      → delay_of l jitter attempt after ≼ l.backoff_max_seconds
  unfolding delay_of
  delay_of-bound l jitter attempt none = fmin-bound o l.backoff_max_seconds _
  delay_of-bound l jitter attempt (some seconds) = fmin-bound o l.backoff_max_seconds seconds

module _ {F : Type 0} ⦃fl : Float F⦄ {A : Type 0} where
  -- An attempt after which the loop goes on.
  abbrev pub IsRetried : Attempt F A → Type 0
  IsRetried (returned a) = ⊥
  IsRetried (raised e) = e.is_retryable ≡ true

  -- The attempts before the last one were retryable failures, the outcome is that of the last one, and
  -- it is a success, or a failure that is not retryable, or no retry was left.
  pub record IsFaithful (l : AsyncRateLimiter F) (func : ℕ → Attempt F A) (first left : ℕ)
      (x : Execution F A) : Type 0 where
    pub called : 1 ≤ x.calls
    pub bounded : x.calls ≤ suc left
    pub delayed : suc (length x.delays) ≡ x.calls
    pub delays_bounded : All (λ d. d ≼ l.backoff_max_seconds) x.delays
    pub earlier_retried : (k : ℕ) → first ≤ k → suc k < first + x.calls → IsRetried (func k)
    pub is_last : x.outcome ≡ func (first + x.calls - 1)
    pub stopped : x.calls < suc left → ¬ IsRetried x.outcome

  once-IsFaithful :
      (l : AsyncRateLimiter F) (func : ℕ → Attempt F A) (first left : ℕ) (a : Attempt F A)
      → func first ≡ a
      → (1 < suc left → ¬ IsRetried a)
      → IsFaithful l func first left (once a)
  once-IsFaithful l func first left a e k = record {
    called = omega arith;
    bounded = omega arith;
    delayed = refl;
    delays_bounded = tt;
    earlier_retried = λ j h m. let bad : ⊥ = omega (arith, h, m) in elim bad [ ];
    is_last = sym e ∙ ap func (omega arith);
    stopped = k;
  }

  retried-IsFaithful :
      (l : AsyncRateLimiter F) (func : ℕ → Attempt F A) (first left : ℕ) (d : F) (x : Execution F A)
      → IsRetried (func first)
      → d ≼ l.backoff_max_seconds
      → IsFaithful l func (suc first) left x
      → IsFaithful l func first (suc left) (after_delay d x)
  retried-IsFaithful l func first left d x r b f = record {
    called = omega arith;
    bounded = omega (arith, f.bounded);
    delayed = ap suc f.delayed;
    delays_bounded = (b, f.delays_bounded);
    earlier_retried = λ k h m. elim (Bool-cases (k == first)) [
      | inl e ↦ let p : k ≡ first = ground arith in subst (λ j. IsRetried (func j)) (sym p) r
      | inr e ↦ f.earlier_retried k (ground arith) (omega (arith, m))
    ];
    is_last = f.is_last ∙ ap func (omega (arith, f.called));
    stopped = λ m. f.stopped (omega (arith, m));
  }

  module _ (o : IsOrdered F) where
    by_attempt :
        (l : AsyncRateLimiter F) (jitter : ℕ → F) (func : ℕ → Attempt F A) (first left : ℕ)
        → IsFaithful l func (suc first) left (attempts l jitter func (suc first) left)
        → (a : Attempt F A) → func first ≡ a
        → IsFaithful l func first (suc left) (
            after_attempt
              (λ e. delay_of l jitter (suc first) e.retry_after)
              (attempts l jitter func (suc first) left)
              a)
    by_attempt l jitter func first left f (returned a) p =
        once-IsFaithful l func first (suc left) (returned a) p (λ m k. k)
    by_attempt l jitter func first left f (raised e) p = elim (Bool-cases e.is_retryable) [
      | inl t ↦ rw t (
          retried-IsFaithful l func first left _ (attempts l jitter func (suc first) left)
            (subst IsRetried (sym p) t) (delay_of-bound o l jitter (suc first) e.retry_after) f)
      | inr t ↦
          subst
            (λ b. IsFaithful l func first (suc left) (
              if b
              then after_delay (delay_of l jitter (suc first) e.retry_after)
                  (attempts l jitter func (suc first) left)
              else once (raised e)))
            (sym t) (once-IsFaithful l func first (suc left) (raised e) p (λ m k. cc))
    ]

    attempts-IsFaithful :
        (l : AsyncRateLimiter F) (jitter : ℕ → F) (func : ℕ → Attempt F A) (first left : ℕ)
        → IsFaithful l func first left (attempts l jitter func first left)
    unfolding attempts
    attempts-IsFaithful l jitter func first zero =
        once-IsFaithful l func first 0 (func first) refl
          (λ m. let bad : ⊥ = omega (arith, m) in elim bad [ ])
    attempts-IsFaithful l jitter func first (suc left) =
        by_attempt l jitter func first left (attempts-IsFaithful l jitter func (suc first) left)
          (func first) refl

    -- Every request ends. It is called at most once more than the retries allowed; each attempt before
    -- the last was a retryable failure, and the outcome is that of the last one, which is retryable only
    -- where no retry was left; there is one delay for each retry, none over the maximum.
    pub execute-IsFaithful :
        (l : AsyncRateLimiter F) (jitter : ℕ → F) (func : ℕ → Attempt F A)
        → IsFaithful l func 0 l.max_retries (execute l jitter func)
    unfolding execute
    execute-IsFaithful l jitter func = attempts-IsFaithful l jitter func 0 l.max_retries
