-- ===== src/Controller/Deletion/Retries.antt =====
-- The retries of a deletion are five attempts, one after the other.
use zen_cleaner.Prelude.{
  ℕ, zero, suc, ◌+◌, ◌≤◌, ◌<◌, ◌≡◌, refl, ap, ◌∙◌, true, false, Option, none, some, ◌∷◌, arith, eqb,
}
use zen_cleaner.Unstructured.{Unstructured}
use zen_cleaner.Api.{BehaviorSpec}
use zen_cleaner.Safety.{Gate}
use zen_cleaner.Backoff.{
  Config, Backoff, default_config, new_backoff, grow, grow_times, add_jitter, next, is_exhausted,
}
use zen_cleaner.Controller.Deletion.{
  ApiError, timeout, server_timeout, too_many_requests, service_unavailable, not_found, other,
  Failure, api, limiter_error, context_cancelled, is_retryable, is_not_found, retries_exhausted,
  slept, Log, Env, delete_resource, Outcome, sleep_and_retry, follow_attempt, fuel, Step, return,
  retry, after_attempt, retry_loop, delete_resource_with_backoff,
}

-- What an attempt leaves: its result, or the attempts that follow.
unfoldable pub go_on : Log → (ApiError → Option Failure × Log) → Step → Option Failure × Log
go_on log rest (return result) = (result, log)
go_on log rest (retry e) = rest e

-- What an attempt asks for: another one after a timeout, too many requests or an unavailable service;
-- a missing object is no error.
abbrev pub meaning : Option Failure → Step
meaning none = return none
meaning (some (api timeout)) = retry timeout
meaning (some (api server_timeout)) = retry server_timeout
meaning (some (api too_many_requests)) = retry too_many_requests
meaning (some (api service_unavailable)) = retry service_unavailable
meaning (some (api not_found)) = return none
meaning (some (api other)) = return (some (api other))
meaning (some limiter_error) = return (some limiter_error)
meaning (some context_cancelled) = return (some context_cancelled)
meaning (some (retries_exhausted last)) = return (some (retries_exhausted last))

after_attempt-meaning : (f : Option Failure) → after_attempt f ≡ meaning f
unfolding after_attempt is_retryable is_not_found
after_attempt-meaning none = refl
after_attempt-meaning (some (api timeout)) = refl
after_attempt-meaning (some (api server_timeout)) = refl
after_attempt-meaning (some (api too_many_requests)) = refl
after_attempt-meaning (some (api service_unavailable)) = refl
after_attempt-meaning (some (api not_found)) = refl
after_attempt-meaning (some (api other)) = refl
after_attempt-meaning (some limiter_error) = refl
after_attempt-meaning (some context_cancelled) = refl
after_attempt-meaning (some (retries_exhausted last)) = refl

-- At most so many attempts, with a sleep after each that may be tried again.
unfoldable pub attempts :
    (Log → Option Failure × Log) → ℕ → Option ApiError → Log → Option Failure × Log
unfolding go_on
attempts try zero last log = (some (retries_exhausted last), log)
attempts try (suc n) last log =
    let rest = λ (e : ApiError). attempts try n (some e) (slept ∷ (try log).1) in
    go_on (try log).1 rest (meaning (try log).0)

-- As the outcome of a loop that did not run out of fuel.
abbrev pub ended : Option Failure × Log → Outcome
ended (result, log) = (some result, log)

module _ (config : Config) (factor-ge : (d : ℕ) → d ≤ config.times_factor d)
    (capped : 0 < config.cap) where
  grow_positive : (d : ℕ) → 0 < d → 0 < grow config d
  unfolding grow
  grow_positive d h = ground (arith, factor-ge d)

  grow_times_positive : (n d : ℕ) → 0 < d → 0 < grow_times config n d
  unfolding grow_times
  grow_times_positive zero d h = h
  grow_times_positive (suc n) d h = grow_times_positive n (grow config d) (grow_positive d h)

add_jitter_ge : (j : Option (ℕ → ℕ)) (d : ℕ) → d ≤ add_jitter j d
unfolding add_jitter
add_jitter_ge none d = omega arith
add_jitter_ge (some amount) d = omega arith

-- A step that is not the last leaves one step fewer, and its delay is positive.
next_step_positive :
    (b : Backoff) (n : ℕ)
    → ((d : ℕ) → d ≤ b.backoff.times_factor d)
    → 0 < b.backoff.cap
    → 0 < b.backoff.duration
    → b.step + suc n ≡ b.backoff.steps
    → (is_exhausted b ≡ false)
      × ((next b).0 ≡ record b { step = b.step + 1 })
      × (eqb (next b).1 0 ≡ false)
unfolding next is_exhausted
next_step_positive b n factor capped long left =
    let d = grow_times b.backoff b.step b.backoff.duration in
    ground (
      arith,
      grow_times_positive b.backoff factor capped b.step b.backoff.duration long,
      add_jitter_ge b.backoff.jitter d,
    )

all_taken : (b : Backoff) → b.step + 0 ≡ b.backoff.steps → is_exhausted b ≡ true
unfolding is_exhausted
all_taken b h = ground arith

module _ (env : Env) (try : Log → Option Failure × Log)
    (going : (log : Log) → env.done log ≡ false) where
  follow_attempt-go_on :
      (delay : ℕ) (log : Log) (rest : ApiError → Outcome) (rest' : ApiError → Option Failure × Log)
      (step : Step)
      → eqb delay 0 ≡ false
      → ((e : ApiError) → rest e ≡ ended (rest' e))
      → follow_attempt env delay log rest step ≡ ended (go_on log rest' step)
  unfolding follow_attempt go_on sleep_and_retry
  follow_attempt-go_on delay log rest rest' (return result) d same = refl
  follow_attempt-go_on delay log rest rest' (retry e) d same =
      simp (d, going (slept ∷ log)) (same e)

  retry_loop-attempts :
      (n fuel : ℕ) (b : Backoff) (last : Option ApiError) (log : Log)
      → ((d : ℕ) → d ≤ b.backoff.times_factor d)
      → 0 < b.backoff.cap
      → 0 < b.backoff.duration
      → b.step + n ≡ b.backoff.steps
      → n < fuel
      → retry_loop env try fuel b last log ≡ ended (attempts try n last log)
  unfolding retry_loop attempts
  retry_loop-attempts n zero b last log f c l s h = absurd (omega arith)
  retry_loop-attempts zero (suc fuel) b last log f c l s h =
      let exhausted : is_exhausted b ≡ true = all_taken b s in simp exhausted refl
  retry_loop-attempts (suc n) (suc fuel) b last log f c l s h =
      let (goes_on, stepped, waits) = next_step_positive b n f c l s in
      let rest =
        λ (e : ApiError). retry_loop env try fuel (next b).0 (some e) (slept ∷ (try log).1) in
      let rest' = λ (e : ApiError). attempts try n (some e) (slept ∷ (try log).1) in
      simp (goes_on, going log)
        (follow_attempt-go_on (next b).1 (try log).1 rest rest' (after_attempt (try log).0) waits
            (λ e.
              ap (λ k. retry_loop env try fuel k (some e) (slept ∷ (try log).1)) stepped
              ∙ retry_loop-attempts n fuel (record b { step = b.step + 1 }) (some e)
                  (slept ∷ (try log).1) f c l (omega arith) (omega arith))
          ∙ ap (λ step. ended (go_on (try log).1 rest' step)) (after_attempt-meaning (try log).0))

-- Where the context is not cancelled and doubling a delay does not make it smaller, a deletion is five
-- attempts at most: it ends with the first that has a result, be it success, an error that is not
-- retryable or a missing object, and sleeps once before each that follows; after five attempts that
-- are all retryable it ends with the error of the last. The backoff and the fuel stop it no earlier.
pub delete_resource_with_backoff-attempts :
    (env : Env) (gate : Option Gate) (behavior : BehaviorSpec) (resource : Unstructured) (log : Log)
    → ((l : Log) → env.done l ≡ false)
    → ((d : ℕ) → d ≤ env.floats.double d)
    → delete_resource_with_backoff env gate behavior resource log
      ≡ ended (attempts (delete_resource env gate behavior resource) 5 none log)
unfolding delete_resource_with_backoff new_backoff default_config
delete_resource_with_backoff-attempts env gate behavior resource log going factor =
    retry_loop-attempts env (delete_resource env gate behavior resource) going 5 fuel
      (new_backoff (default_config env.floats)) none log factor (omega arith) (omega arith) refl
      (omega arith)
